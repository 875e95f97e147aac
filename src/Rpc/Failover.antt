-- ===== src/Rpc/Failover.antt =====
-- `FailoverHttp::request`, `demote` and `block_number_on` of src/chain/rpc.rs. The answers of the
-- endpoints to one request are a function from their index; within a request each is asked once.
use nox_indexer.Prelude.{
  ℕ, zero, suc, ◌+◌, ◌%◌, ◌==◌, ltb, Bool, true, false, ◌&&◌, Option, none, some, List, [], ◌∷◌,
  ◌++◌, if◌then◌else◌, length, get_elem?,
}
use nox_indexer.Prelude.Text.{Text, text, show_u64}
use nox_indexer.Rpc.Endpoints.{
  HttpClientError, FailoverHttp, Reply, value, failed, timed_out, is_deterministic, label, redact,
  timeout_text, join,
}

-- The result of a request: a value, or the summary and the last error.
pub data Served {ℓ} (V : Type ℓ) : Type ℓ where
  served : V → Served V
  refused : Text → Option HttpClientError → Served V

-- The state that a success at `index` leaves.
unfoldable pub after_success : Bool → ℕ → ℕ → FailoverHttp → FailoverHttp
after_success is_get_logs start index http = record http {
  preferred = if index == start then http.preferred else index;
  logs_served_by = if is_get_logs then index else http.logs_served_by;
}

-- The summary once every endpoint has failed.
unfoldable pub all_failed : Text → ℕ → List Text → Text
all_failed method count failures =
    text "all "
    ++ show_u64 count
    ++ text " RPC endpoint(s) failed for "
    ++ method
    ++ text ": "
    ++ join failures

module _ {ℓ} {V : Type ℓ} where
  -- The loop over the offsets, `rounds` of them left; `method` is the name of the call.
  unfoldable pub try_from :
      (ℕ → Reply V)
      → Text
      → Bool
      → ℕ
      → FailoverHttp
      → ℕ
      → ℕ
      → List Text
      → Option HttpClientError
      → Served V × FailoverHttp
  try_from replies method is_get_logs start http zero offset failures last =
      let count = length http.endpoints in
      (
        refused (all_failed method count failures) last,
        record http { preferred = (start + 1) % count },
      )
  try_from replies method is_get_logs start http (suc rounds) offset failures last =
      let index = (start + offset) % length http.endpoints in
      let again = λ (failure : Text) (last' : Option HttpClientError).
        try_from replies method is_get_logs start http rounds (offset + 1)
          (failures ++ failure ∷ []) last' in
      elim (replies index) [
        | value v ↦ (served v, after_success is_get_logs start index http)
        | failed error shown ↦
            let said = redact http shown in
            elim (is_deterministic error) [
              | true ↦ (refused (label http index ++ text ": " ++ said) (some error), http)
              | false ↦
                  again (text "[" ++ label http index ++ text ": " ++ said ++ text "]") (some error)
            ]
        | timed_out ↦ again (timeout_text (label http index)) last
      ]

  unfoldable pub request : (ℕ → Reply V) → Text → Bool → FailoverHttp → Served V × FailoverHttp
  request replies method is_get_logs http =
      let count = length http.endpoints in
      try_from replies method is_get_logs (http.preferred % count) http count 0 [] none

-- `FailoverHttp::demote`
unfoldable pub demote : FailoverHttp → ℕ → FailoverHttp
demote http index =
    let count = length http.endpoints in
    if ltb 1 count && http.preferred == index
    then record http { preferred = (index + 1) % count }
    else http

-- The result of `eth_blockNumber` on one endpoint, without failover.
pub data HeadResult : Type 0 where
  head : ℕ → HeadResult
  unknown_head : Text → HeadResult

-- `FailoverHttp::block_number_on`
unfoldable pub block_number_on : (ℕ → Reply ℕ) → FailoverHttp → ℕ → HeadResult
block_number_on replies http index = elim (get_elem? http.endpoints index) [
  | none ↦ unknown_head (text "no RPC endpoint #" ++ show_u64 index)
  | some endpoint ↦ elim (replies index) [
    | value block ↦ head block
    | failed error shown ↦
        unknown_head (endpoint.label ++ text ": eth_blockNumber failed: " ++ redact http shown)
    | timed_out ↦ unknown_head (endpoint.label ++ text ": eth_blockNumber timed out after 30s")
  ]
]
