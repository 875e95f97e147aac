-- ===== src/Rpc/Indices.antt =====
-- Requests and demotions keep the indices of the endpoints in range.
use native.Mathlib.Decide.{dec_lt}
use native.Mathlib.Nat.{mod-eq_of_lt}
use nox_indexer.Prelude.{
  ℕ, zero, suc, ◌+◌, ◌%◌, ◌==◌, ◌<◌, ◌≡◌, ◌≢◌, inl, inr, Bool, ◌&&◌, Option, none, some, List, [],
  ◌∷◌, ◌++◌, length, arith, Bool-cases, ltb,
}
use nox_indexer.Prelude.Text.{Text, text}
use nox_indexer.Rpc.Endpoints.{
  HttpClientError, FailoverHttp, Reply, is_deterministic, label, redact, timeout_text,
}
use nox_indexer.Rpc.Failover.{after_success, try_from, request, demote}
use nox_indexer.Rpc.Rotation.{IsValid}
use nox_indexer.Rpc.Coverage.{reply_is, mod_above}

after_success-IsValid :
    (is_get_logs : Bool) (start index : ℕ) (http : FailoverHttp)
    → index < length http.endpoints
    → IsValid http
    → IsValid (after_success is_get_logs start index http)
unfolding after_success
after_success-IsValid is_get_logs start index http h v = ground arith

module _ {ℓ} {V : Type ℓ} where
  try_from-IsValid :
      (replies : ℕ → Reply V) (method : Text) (is_get_logs : Bool) (start : ℕ) (http : FailoverHttp)
      (rounds offset : ℕ) (failures : List Text) (last : Option HttpClientError)
      → IsValid http
      → IsValid (try_from replies method is_get_logs start http rounds offset failures last).1
  unfolding try_from
  try_from-IsValid replies method is_get_logs start http zero offset failures last v = record {
    preferred = omega arith;
    logs = v.logs;
  }
  try_from-IsValid replies method is_get_logs start http (suc rounds) offset failures last v =
      let index = (start + offset) % length http.endpoints in
      let small : index < length http.endpoints = omega arith in
      elim (reply_is (replies index)) [
        | inl (w, e) ↦ rw (e, try_from) (after_success-IsValid is_get_logs start index http small v)
        | inr (inl (error, shown, e)) ↦ elim (Bool-cases (is_deterministic error)) [
          | inl d ↦ rw (e, try_from, d) v
          | inr d ↦
              rw (e, try_from, d)
                (try_from-IsValid replies method is_get_logs start http rounds (offset + 1)
                  (failures
                    ++ (text "[" ++ label http index ++ text ": " ++ redact http shown ++ text "]")
                      ∷ [])
                  (some error) v)
        ]
        | inr (inr e) ↦
            rw (e, try_from)
              (try_from-IsValid replies method is_get_logs start http rounds (offset + 1)
                (failures ++ timeout_text (label http index) ∷ []) last v)
      ]

  -- A request that starts with both indices in range keeps them in range, however it ends.
  pub request-IsValid :
      (replies : ℕ → Reply V) (method : Text) (is_get_logs : Bool) (http : FailoverHttp)
      → IsValid http
      → IsValid (request replies method is_get_logs http).1
  unfolding request
  request-IsValid replies method is_get_logs http v =
      try_from-IsValid replies method is_get_logs (http.preferred % length http.endpoints) http
        (length http.endpoints) 0 [] none v

next_ne : (n index : ℕ) → index < n → 1 < n → (index + 1) % n ≢ index
next_ne n index lt two same = elim (dec_lt (index + 1) n) [
  | yes p ↦ omega (arith, mod-eq_of_lt p)
  | no p ↦ omega (arith, mod_above n (index + 1) (omega arith) (omega arith))
]

-- With a second endpoint and both indices in range a demotion keeps them in range, and the demoted
-- endpoint is no longer preferred.
pub demote_moves :
    (http : FailoverHttp) (index : ℕ)
    → IsValid http
    → 1 < length http.endpoints
    → IsValid (demote http index) × ((demote http index).preferred ≢ index)
unfolding demote
demote_moves http index v two =
    elim (Bool-cases (ltb 1 (length http.endpoints) && http.preferred == index)) [
      | inl e ↦
          let here : http.preferred ≡ index = ground arith in
          rw (e, demote)
            (
              record { preferred = omega arith; logs = v.logs },
              next_ne (length http.endpoints) index (omega (arith, v.preferred, here)) two,
            )
      | inr e ↦ rw (e, demote) (v, ground arith)
    ]
