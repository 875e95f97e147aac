-- ===== src/Rpc/Coverage.antt =====
-- A request reaches every endpoint that it has to, and which endpoint served it.
use native.Mathlib.Decide.{dec_le, dec_lt}
use native.Mathlib.Nat.{mod-eq_of_lt, mod-eq-sub-mod}
use nox_indexer.Prelude.{
  ◌∙◌, ap, ℕ, zero, suc, ◌+◌, ◌-◌, ◌%◌, ◌≤◌, ◌<◌, ◌≡◌, ◌≢◌, refl, ◌⊎◌, inl, inr, Bool, true, Option,
  none, some, List, [], ◌∷◌, ◌++◌, length, arith, Bool-cases,
}
use nox_indexer.Prelude.Text.{Text, text}
use nox_indexer.Rpc.Endpoints.{
  HttpClientError, FailoverHttp, Reply, value, failed, timed_out, is_deterministic, label, redact,
  timeout_text,
}
use nox_indexer.Rpc.Failover.{Served, served, after_success, try_from, request}
use nox_indexer.Rpc.Skipping.{IsRetryable}
use nox_indexer.Rpc.Rotation.{asked, PassedOver, first_value}

pub mod_above : (n s : ℕ) → n ≤ s → s < n + n → s % n ≡ s - n
mod_above n s h k = mod-eq-sub-mod h ∙ mod-eq_of_lt (omega arith)

rotation_onto : (n start m : ℕ) → start < n → m < n → (k : ℕ) × (k < n) × ((start + k) % n ≡ m)
rotation_onto n start m hs hm = elim (dec_le start m) [
  | yes p ↦ (m - start, omega arith, grind arith)
  | no p ↦ (m + n - start, omega arith, grind arith)
]

rotation_into : (n start i j : ℕ) → start < n → i < j → j < n → (start + i) % n ≢ (start + j) % n
rotation_into n start i j hs hij hj e = elim (dec_lt (start + i) n) [
  | yes p ↦ elim (dec_lt (start + j) n) [
    | yes q ↦ omega (arith, mod-eq_of_lt p, mod-eq_of_lt q)
    | no q ↦ omega (arith, mod-eq_of_lt p, mod_above n (start + j) (omega arith) (omega arith))
  ]
  | no p ↦ omega (
    arith,
    mod_above n (start + i) (omega arith) (omega arith),
    mod_above n (start + j) (omega arith) (omega arith),
  )
]

-- An answer by its constructor.
pub reply_is {ℓ} :
    {V : Type ℓ} (r : Reply V)
    → ((v : V) × (r ≡ value v))
      ⊎ (((error : HttpClientError) × (shown : Text) × (r ≡ failed error shown)) ⊎ (r ≡ timed_out))
reply_is (value v) = inl (v, refl)
reply_is (failed error shown) = inr (inl (error, shown, refl))
reply_is timed_out = inr (inr refl)

-- The endpoint that served `eth_getLogs` is the one that `logs_served_by` names afterwards.
try_from_served_by {ℓ} :
    {V : Type ℓ} (replies : ℕ → Reply V) (method : Text) (start : ℕ) (http : FailoverHttp)
    (rounds offset : ℕ) (failures : List Text) (last : Option HttpClientError) {v : V}
    {http' : FailoverHttp}
    → try_from replies method true start http rounds offset failures last ≡ (served v, http')
    → replies http'.logs_served_by ≡ value v
unfolding try_from after_success
try_from_served_by {V} replies method start http zero offset failures last {v} {http'} e = cc
try_from_served_by {V} replies method start http (suc rounds) offset failures last {v} {http'} e =
    let index = (start + offset) % length http.endpoints in
    elim (reply_is (replies index)) [
      | inl (w, r) ↦
          let e' = rw (r, try_from) at e in
          let at : index ≡ http'.logs_served_by =
            ap (λ (p : Served V × FailoverHttp). p.1.logs_served_by) e' in
          let same : served w ≡ served v = ap (λ (p : Served V × FailoverHttp). p.0) e' in
          rw (← at) (r ∙ cc)
      | inr (inl (error, shown, r)) ↦ elim (Bool-cases (is_deterministic error)) [
        | inl d ↦ let e' = rw (r, try_from, d) at e in cc
        | inr d ↦
            try_from_served_by replies method start http rounds (offset + 1)
              (failures
                ++ (text "[" ++ label http index ++ text ": " ++ redact http shown ++ text "]")
                  ∷ [])
              (some error) (rw (r, try_from, d) at e)
      ]
      | inr (inr r) ↦
          try_from_served_by replies method start http rounds (offset + 1)
            (failures ++ timeout_text (label http index) ∷ []) last (rw (r, try_from) at e)
    ]

-- The value of a served `eth_getLogs` is the answer of the endpoint that is recorded for it.
pub request_served_by {ℓ} :
    {V : Type ℓ} (replies : ℕ → Reply V) (method : Text) (http : FailoverHttp) {v : V}
    {http' : FailoverHttp}
    → request replies method true http ≡ (served v, http')
    → replies http'.logs_served_by ≡ value v
unfolding request
request_served_by replies method http e =
    try_from_served_by replies method (http.preferred % length http.endpoints) http
      (length http.endpoints) 0 [] none e

module _ {ℓ} {V : Type ℓ} where
  abbrev IsValue : Reply V → Type ℓ
  IsValue r = (v : V) × (r ≡ value v)

  abbrev pub IsDeterministic : Reply V → Type 0
  IsDeterministic (value v) = ⊥
  IsDeterministic (failed error shown) = is_deterministic error ≡ true
  IsDeterministic timed_out = ⊥

  reply_cases : (r : Reply V) → ¬ IsDeterministic r → IsValue r ⊎ IsRetryable r
  reply_cases (value v) h = inl (v, refl)
  reply_cases (failed error shown) h = elim (Bool-cases (is_deterministic error)) [
    | inl e ↦ absurd (h e)
    | inr e ↦ inr e
  ]
  reply_cases timed_out h = inr tt

  module _ (replies : ℕ → Reply V) (method : Text) (is_get_logs : Bool) (http : FailoverHttp) where
    -- The first value among the endpoints asked before offset `k`, if there is one.
    first-IsValue :
        ((i : ℕ) → ¬ IsDeterministic (replies i))
        → (k : ℕ)
        → ((j : ℕ) × (j < k)
            × PassedOver replies method is_get_logs http j
            × IsValue (replies (asked replies method is_get_logs http j)))
          ⊎ PassedOver replies method is_get_logs http k
    first-IsValue plain zero = inr (λ j h. elim h [ ])
    first-IsValue plain (suc k) = elim (first-IsValue plain k) [
      | inl (j, lt, passed, v) ↦ inl (j, omega arith, passed, v)
      | inr passed ↦
          elim (reply_cases (replies (asked replies method is_get_logs http k))
            (plain (asked replies method is_get_logs http k))) [
              | inl v ↦ inl (k, omega arith, passed, v)
              | inr r ↦ inr (λ j h. elim (dec_lt j k) [
                | yes q ↦ passed j q
                | no q ↦ let same : j ≡ k = omega arith in rw same r
              ])
            ]
    ]

    -- A request is served whenever one endpoint answers with a value and none answers with an error
    -- that the code takes for deterministic, wherever the preferred endpoint is.
    pub request_reaches :
        (m : ℕ) {v : V}
        → m < length http.endpoints
        → replies m ≡ value v
        → ((i : ℕ) → ¬ IsDeterministic (replies i))
        → (v' : V) × (http' : FailoverHttp) × (request replies method is_get_logs http
            ≡ (served v', http'))
    request_reaches m {v} lt e plain =
        let n = length http.endpoints in
        let start = http.preferred % n in
        elim (first-IsValue plain n) [
          | inl (k, small, passed, (v', ev)) ↦ (
            v',
            after_success is_get_logs start (asked replies method is_get_logs http k) http,
            first_value replies method is_get_logs http k small passed ev,
          )
          | inr passed ↦
              let (k, small, onto) = rotation_onto n start m (omega arith) lt in
              let r : IsRetryable (replies m) = rw onto at (passed k small) in absurd (rw e at r)
        ]

    -- Within one request no endpoint is asked twice.
    pub asked_apart :
        (i j : ℕ)
        → i < j
        → j < length http.endpoints
        → asked replies method is_get_logs http i ≢ asked replies method is_get_logs http j
    asked_apart i j hij hj =
        let n = length http.endpoints in
        let start = http.preferred % n in
        let small : start < n = omega arith in rotation_into n start i j small hij hj

    -- Each endpoint has its turn within a request, at one of as many offsets as there are endpoints.
    pub asked_onto :
        (m : ℕ)
        → m < length http.endpoints
        → (k : ℕ) × (k < length http.endpoints) × (asked replies method is_get_logs http k ≡ m)
    asked_onto m hm =
        let n = length http.endpoints in
        let start = http.preferred % n in rotation_onto n start m (omega arith) hm
