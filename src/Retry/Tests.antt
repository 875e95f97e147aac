-- ===== src/Retry/Tests.antt =====
-- The retry policy on concrete inputs.
use nox_indexer.Prelude.{◌↔◌, ℕ, ◌≤◌, ◌<◌, ◌≡◌, refl, none, some, List, [], ◌∷◌, arith}
use nox_indexer.Prelude.Text.{
  Text, text, contains_any, replace, to_lowercase, after_first, take_while, keep, parse_uint,
}
use nox_indexer.Retry.Chunk.{AdaptiveChunk, on_success, on_range_error}
use nox_indexer.Retry.Bounds.{
  IsValid, Outcome, success, range_error, rate_limited, record_outcome, record_all,
  record_all_bounds, learned_limit_holds,
}
use nox_indexer.Retry.Sharing.{succeed, AsksAbove, stale_rejection_iff}
use nox_indexer.Retry.Backoff.{backoff_delay, backoff_delay_window}
use nox_indexer.Retry.Classify.{RpcErrorKind, range_too_large, classify_rpc_error}
use nox_indexer.Retry.Classify

-- A size that has grown to its learned ceiling.
abbrev grown : AdaptiveChunk
grown = record { size = 2_000; min = 100; ceiling = 5_000; streak = 0 }

grown-IsValid : IsValid grown
grown-IsValid = record {
  positive = omega arith;
  floor = omega arith;
  within = omega arith;
  word = omega arith;
}

abbrev outcomes : List Outcome
outcomes = success ∷ success ∷ range_error 4_000 (some 1_000) ∷ rate_limited ∷ []

grown_twice : 4_000 ≤ (record_outcome (record_outcome grown success) success).size
unfolding record_outcome on_success
grown_twice = omega arith

record_all_bounds_example :
    IsValid (record_all grown outcomes)
    × ((record_all grown outcomes).ceiling ≤ 5_000)
    × ((record_all grown outcomes).min ≡ 100)
record_all_bounds_example =
    record_all_bounds grown outcomes grown-IsValid (tt, (tt, (grown_twice, (tt, tt))))

learned_limit_holds_example :
    (record_all (on_range_error grown 1_500 (some 1_000)) (success ∷ success ∷ [])).size ≤ 1_000
learned_limit_holds_example =
    learned_limit_holds grown 1_500 1_000 (success ∷ success ∷ []) grown-IsValid (omega arith)
      (omega arith) (omega arith) (tt, (tt, tt))

-- A ceiling of 5 000, and the rejection of an older request for 16 000 blocks.
stale_rejection_iff_example :
    ((succeed 4 (on_range_error grown 16_000 none)).ceiling
      < (succeed 4 (on_range_error grown 16_000 none)).size)
    ↔ AsksAbove 5_000 16_000 none
stale_rejection_iff_example = stale_rejection_iff grown 16_000 4 none grown-IsValid

-- The third attempt, half a second as the base and five seconds as the cap.
backoff_delay_window_example :
    (d : ℕ) × (backoff_delay 3 500_000_000 5_000_000_000 12_345 ≡ some d)
    × (1_000_000_000 ≤ d)
    × (d ≤ 2_000_000_000)
backoff_delay_window_example = backoff_delay_window 3 500_000_000 5_000_000_000 12_345 (omega arith)

abbrev capped_message : Text
capped_message = text "eth_getLogs is limited to a 2,000 block range"

capped : classify_rpc_error capped_message ≡ range_too_large (some 2_000)
unfolding classify_rpc_error contains_any replace to_lowercase after_first take_while keep
    parse_uint
capped = refl

-- A block number that holds the digits 429 makes the error of an endpoint that is behind look like a
-- rate limit.
behind_looks_rate_limited :
    classify_rpc_error (
      text
        "rpc1 is behind: its head 21429000 is below requested log end 21429500; discarding the possibly truncated result")
    ≡ Classify.rate_limited
unfolding classify_rpc_error contains_any replace to_lowercase after_first take_while keep
    parse_uint
behind_looks_rate_limited = refl
