-- ===== src/Rpc/Rotation.antt =====
-- Which endpoint serves a request, and where the next request starts.
use native.Mathlib.Nat.{mod-eq_of_lt}
use nox_indexer.Prelude.{
  ◌∙◌, ap, ◌-◌, ◌==◌, ℕ, suc, ◌+◌, ◌%◌, ◌<◌, ◌≡◌, Bool, true, Option, none, some, [], ◌++◌,
  if◌then◌else◌, length, arith,
}
use nox_indexer.Prelude.Text.{Text, text, show_u64}
use nox_indexer.Rpc.Endpoints.{
  HttpClientError, FailoverHttp, Reply, value, failed, is_deterministic, label, redact,
}
use nox_indexer.Rpc.Failover.{served, refused, after_success, all_failed, try_from, request}
use nox_indexer.Rpc.Skipping.{
  IsRetryable, failures_text, last_error, join-failures_of, skip_rounds, finish_served,
  finish_refused,
}

-- Both indices name an endpoint, of which there is one at least.
pub record IsValid (http : FailoverHttp) : Type 0 where
  pub preferred : http.preferred < length http.endpoints
  pub logs : http.logs_served_by < length http.endpoints

kept_or : (p i : ℕ) → (if i == p then p else i) ≡ i
kept_or p i = ground arith

-- A preference that names an endpoint is what the code starts from.
preferred_from : (n p i : ℕ) → p < n → (if i == p % n then p else i) ≡ i
preferred_from n p i h = let e : p % n ≡ p = mod-eq_of_lt h in rw e (kept_or p i)

module _ {ℓ} {V : Type ℓ} where
  module _ (replies : ℕ → Reply V) (method : Text) (is_get_logs : Bool) (http : FailoverHttp) where
    -- The endpoint that a request asks at an offset from the preferred one.
    abbrev pub asked : ℕ → ℕ
    asked offset = (http.preferred % length http.endpoints + offset) % length http.endpoints

    abbrev pub PassedOver : ℕ → Type 0
    PassedOver k = (j : ℕ) → j < k → IsRetryable (replies (asked j))

    -- The client after a success at an offset: it prefers the endpoint asked there, and notes it as
    -- the one that served the logs if logs were asked for.
    abbrev preferring : ℕ → FailoverHttp
    preferring k = record http {
      preferred = asked k;
      logs_served_by = if is_get_logs then asked k else http.logs_served_by;
    }

    pub first_value :
        (k : ℕ) {v : V}
        → k < length http.endpoints
        → PassedOver k
        → replies (asked k) ≡ value v
        → request replies method is_get_logs http ≡ (
          served v,
          after_success is_get_logs (http.preferred % length http.endpoints) (asked k) http,
        )
    unfolding request
    first_value k lt passed e =
        let start = http.preferred % length http.endpoints in
        let rounds = length http.endpoints - k - 1 in
        skip_rounds replies method is_get_logs start http k (suc rounds) (length http.endpoints) 0 k
          [] none (omega arith) (omega arith) (λ j low high. passed j high)
        ∙ finish_served replies method is_get_logs start http rounds k _ _ e

    -- If the client's indices name endpoints, the first endpoint in the rotation that answers with a
    -- value serves the request: every one before it gave a retryable answer. It is the preferred
    -- endpoint afterwards, and the one noted for the logs if logs were asked for; nothing else of
    -- the client changes.
    pub request_served :
        (k : ℕ) {v : V}
        → IsValid http
        → k < length http.endpoints
        → PassedOver k
        → replies (asked k) ≡ value v
        → request replies method is_get_logs http ≡ (served v, preferring k)
    unfolding after_success
    request_served k {v} valid lt passed e =
        first_value k lt passed e
        ∙ ap
            (λ (p : ℕ). (
              served v,
              record http {
                preferred = p;
                logs_served_by = if is_get_logs then asked k else http.logs_served_by;
              },
            ))
            (preferred_from (length http.endpoints) http.preferred (asked k) valid.preferred)

    -- If the endpoints before it in the rotation gave retryable answers, an error that every
    -- endpoint would reproduce ends the request at once, under the label of its endpoint and
    -- redacted, and no preference moves.
    pub request_deterministic :
        (k : ℕ) {error : HttpClientError} {shown : Text}
        → k < length http.endpoints
        → PassedOver k
        → replies (asked k) ≡ failed error shown
        → is_deterministic error ≡ true
        → request replies method is_get_logs http
          ≡ (refused (label http (asked k) ++ text ": " ++ redact http shown) (some error), http)
    unfolding request
    request_deterministic k lt passed e d =
        let start = http.preferred % length http.endpoints in
        let rounds = length http.endpoints - k - 1 in
        skip_rounds replies method is_get_logs start http k (suc rounds) (length http.endpoints) 0 k
          [] none (omega arith) (omega arith) (λ j low high. passed j high)
        ∙ finish_refused replies method is_get_logs start http rounds k _ _ e d

    -- The failures of all turns, in the order of the rotation.
    abbrev pub failures_in_turn : Text
    failures_in_turn =
        let n = length http.endpoints in
        failures_text replies method is_get_logs (http.preferred % n) http n 0

    abbrev pub last_in_turn : Option HttpClientError
    last_in_turn =
        let n = length http.endpoints in
        last_error replies method is_get_logs (http.preferred % n) http n 0 none

    -- If every endpoint gives an answer after which the next one is asked, the request is refused. The
    -- summary names the method, the number of endpoints and the failure of each of them in the order
    -- of the rotation, the last error of an endpoint goes with it, and the next request starts one
    -- endpoint further on.
    pub request_exhausted :
        PassedOver (length http.endpoints)
        → request replies method is_get_logs http ≡ (
          refused
              (text "all "
                ++ show_u64 (length http.endpoints)
                ++ text " RPC endpoint(s) failed for "
                ++ method
                ++ text ": "
                ++ failures_in_turn)
              last_in_turn,
          record http {
            preferred = (http.preferred % length http.endpoints + 1) % length http.endpoints;
          },
        )
    unfolding request try_from all_failed
    request_exhausted passed =
        let start = http.preferred % length http.endpoints in
        let n = length http.endpoints in
        skip_rounds replies method is_get_logs start http n 0 n 0 n [] none (omega arith)
          (omega arith) (λ j low high. passed j high)
        ∙ ap
            (λ (said : Text). (
              refused
                  (text "all "
                    ++ show_u64 n
                    ++ text " RPC endpoint(s) failed for "
                    ++ method
                    ++ text ": "
                    ++ said)
                  last_in_turn,
              record http { preferred = (start + 1) % n },
            ))
            (join-failures_of replies method is_get_logs start http n 0)
