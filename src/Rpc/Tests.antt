-- ===== src/Rpc/Tests.antt =====
-- The failover client on two and three endpoints.
use nox_indexer.Prelude.{ℕ, zero, suc, ◌≡◌, refl, true, some, [], ◌∷◌, ◌++◌, arith}
use nox_indexer.Prelude.Int.{pos}
use nox_indexer.Prelude.Text.{Text, text, show_u64}
use nox_indexer.Rpc.Endpoints.{
  Endpoint, json_rpc_error, FailoverHttp, Reply, value, failed, timed_out, is_deterministic, label,
  redact,
}
use nox_indexer.Rpc.Failover.{served, refused, request}
use nox_indexer.Rpc.Rotation.{
  IsValid, PassedOver, failures_in_turn, last_in_turn, request_served, request_deterministic,
  request_exhausted,
}
use nox_indexer.Rpc.Coverage.{IsDeterministic, request_reaches}

abbrev endpoint : Text → Endpoint
endpoint name = record { label = name; secrets = [] }

abbrev two : FailoverHttp
two = record {
  endpoints = endpoint (text "a") ∷ endpoint (text "b") ∷ [];
  preferred = 1;
  logs_served_by = 0;
}

two-IsValid : IsValid two
two-IsValid = record { preferred = omega arith; logs = omega arith }

-- The second endpoint times out, and the first answers 7.
abbrev answers : ℕ → Reply ℕ
answers zero = value 7
answers (suc n) = timed_out

abbrev call : Text
call = text "eth_getLogs"

passed_one : PassedOver answers call true two 1
passed_one zero h = tt
passed_one (suc j) h = absurd (omega arith)

request_served_example :
    request answers call true two ≡ (served 7, record two { preferred = 0; logs_served_by = 0 })
request_served_example =
    request_served answers call true two 1 {v = 7} two-IsValid (omega arith) passed_one refl

abbrev reverting : ℕ → Reply ℕ
reverting n = failed (json_rpc_error (pos 3) (text "reverted")) (text "oops")

request_deterministic_example : request reverting call true two ≡ (
  refused
      (label two 1 ++ text ": " ++ redact two (text "oops"))
      (some (json_rpc_error (pos 3) (text "reverted"))),
  two,
)
unfolding is_deterministic
request_deterministic_example =
    request_deterministic reverting call true two 0 (omega arith) (λ j h. absurd (omega arith)) refl
      refl

abbrev silent : ℕ → Reply ℕ
silent n = timed_out

request_exhausted_example : request silent call true two ≡ (
  refused
      (text "all "
        ++ show_u64 2
        ++ text " RPC endpoint(s) failed for "
        ++ call
        ++ text ": "
        ++ failures_in_turn silent call true two)
      (last_in_turn silent call true two),
  record two { preferred = 0 },
)
request_exhausted_example = request_exhausted silent call true two (λ j h. tt)

silent_failures :
    failures_in_turn silent call true two ≡ text "[b: timed out after 30s] [a: timed out after 30s]"
unfolding label
silent_failures = refl

plain_answers : (i : ℕ) → ¬ IsDeterministic (answers i)
plain_answers zero d = d
plain_answers (suc i) d = d

request_reaches_example :
    (v : ℕ) × (http : FailoverHttp) × (request answers call true two ≡ (served v, http))
request_reaches_example =
    request_reaches answers call true two 0 {v = 7} (omega arith) refl plain_answers
