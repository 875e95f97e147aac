-- ===== src/Fetch/Progress.antt =====
-- The fetch loop ends within its fuel, and keeps the bounds of the adaptive size.
use nox_indexer.Prelude.{
  ℕ, zero, suc, ◌+◌, ◌-◌, ◌≤◌, ◌<◌, ◌≡◌, refl, inl, inr, true, Option, some, List, arith,
  Option-cases,
}
use nox_indexer.Prelude.Text.{Text}
use nox_indexer.Retry.Chunk.{AdaptiveChunk}
use nox_indexer.Retry.Bounds.{
  IsValid, on_success-IsValid, on_range_error-IsValid, on_rate_limited-IsValid,
  on_range_error-size-le, on_rate_limited-size-le,
}
use nox_indexer.Retry.Classify.{
  RpcErrorKind, range_too_large, rate_limited, transient, classify_rpc_error,
}
use nox_indexer.Rpc.Endpoints.{FailoverHttp}
use nox_indexer.Rpc.Failover.{Served, served, refused, request}
use nox_indexer.Fetch.Chunked.{
  Round, Fetched, Shared, Step, done, retry, method, request_end, check_logs_endpoint_head,
  after_error, failed_round, after_request, fetch_round, fetch_loop, fetch_filtered_logs_chunk,
  max_chunk_attempts,
}

pub after_error_progress :
    (chunk : AdaptiveChunk) (requested : ℕ) (kind : RpcErrorKind)
    → IsValid chunk
    → requested ≤ chunk.size
    → IsValid (after_error chunk requested kind).0
      × ((after_error chunk requested kind).0.size ≤ chunk.size)
      × ((after_error chunk requested kind).1 ≡ true
          → (after_error chunk requested kind).0.size < chunk.size)
unfolding after_error
after_error_progress chunk requested (range_too_large hint) v h = (
  on_range_error-IsValid chunk requested hint v h,
  on_range_error-size-le chunk requested hint v h,
  λ e. ground arith,
)
after_error_progress chunk requested rate_limited v h =
    (on_rate_limited-IsValid chunk v, on_rate_limited-size-le chunk v, λ e. cc)
after_error_progress chunk requested transient v h = (v, omega arith, λ e. cc)

request_end_span : (from to span : ℕ) → 1 ≤ span → request_end from to span - from + 1 ≤ span
unfolding request_end
request_end_span from to span h = ground arith

module _ {L : Type 0} where
  -- What a turn leaves: bounds that hold, and for a further turn a smaller size or one attempt less.
  abbrev pub Advances : AdaptiveChunk → ℕ → Step L × Shared → Type 0
  Advances chunk attempt (done result, s') = IsValid s'.chunk
  Advances chunk attempt (retry attempt', s') =
      IsValid s'.chunk
      × (attempt' < max_chunk_attempts)
      × (s'.chunk.size + (max_chunk_attempts - attempt')
          < chunk.size + (max_chunk_attempts - attempt))

  failed_round-Advances :
      (round : Round L) (from end requested : ℕ) (error : Text) (attempt : ℕ) (s : Shared)
      → IsValid s.chunk
      → requested ≤ s.chunk.size
      → attempt < max_chunk_attempts
      → Advances s.chunk attempt (failed_round round from end requested error attempt s)
  unfolding failed_round
  failed_round-Advances round from end requested error attempt s v h lt =
      ground (arith, after_error_progress s.chunk requested (classify_rpc_error error))

  after_request-Advances :
      (round : Round L) (from to end requested attempt : ℕ) (s : Shared)
      (answer : Served (List L) × FailoverHttp)
      → IsValid s.chunk
      → requested ≤ s.chunk.size
      → attempt < max_chunk_attempts
      → Advances s.chunk attempt (after_request round from to end requested attempt s.chunk answer)
  unfolding after_request
  after_request-Advances round from to end requested attempt s (served logs, http) v h lt =
      let checked = check_logs_endpoint_head round.heads http end to in
      elim (Option-cases checked.0) [
        | inl e ↦ rw (e, after_request) (on_success-IsValid s.chunk v)
        | inr (error, e) ↦
            rw (e, after_request)
              (failed_round-Advances round from end requested error attempt
                (record s { http = checked.1 }) v h lt)
      ]
  after_request-Advances round from to end requested attempt s (refused summary last, http) v h lt =
      failed_round-Advances round from end requested summary attempt (record s { http = http }) v h
        lt

  fetch_round-Advances :
      (round : Round L) (from to attempt : ℕ) (s : Shared)
      → IsValid s.chunk
      → attempt < max_chunk_attempts
      → Advances s.chunk attempt (fetch_round round from to attempt s)
  unfolding fetch_round
  fetch_round-Advances round from to attempt s v lt =
      let end = request_end from to s.chunk.size in
      after_request-Advances round from to end (end - from + 1) attempt s
        (request (round.logs from end) method true s.http) v
        (request_end_span from to s.chunk.size (omega arith)) lt

  -- The loop returns a result, and leaves a size within its bounds.
  abbrev pub Ends : Option (Fetched L × Shared) → Type 0
  Ends outcome =
      (result : Fetched L) × (s' : Shared) × (outcome ≡ some (result, s')) × IsValid s'.chunk

  after_turn :
      (fuel : ℕ) (rounds : ℕ → Round L) (now from to attempt : ℕ) (s : Shared) (step : Step L)
      → (fetch_round (rounds now) from to attempt s).0 ≡ step
      → Advances s.chunk attempt (step, (fetch_round (rounds now) from to attempt s).1)
      → s.chunk.size + (max_chunk_attempts - attempt) ≤ suc fuel
      → ((attempt' : ℕ) (s' : Shared)
          → IsValid s'.chunk
          → attempt' < max_chunk_attempts
          → s'.chunk.size + (max_chunk_attempts - attempt') ≤ fuel
          → Ends (fetch_loop fuel rounds (now + 1) from to attempt' s'))
      → Ends (fetch_loop (suc fuel) rounds now from to attempt s)
  unfolding fetch_loop
  after_turn fuel rounds now from to attempt s (done result) e a h again =
      (result, (fetch_round (rounds now) from to attempt s).1, rw (e, fetch_loop), a)
  after_turn fuel rounds now from to attempt s (retry attempt') e (v, lt, smaller) h again =
      rw (e, fetch_loop)
        (again attempt' (fetch_round (rounds now) from to attempt s).1 v lt (omega arith))

  fetch_loop_total :
      (fuel : ℕ) (rounds : ℕ → Round L) (now from to attempt : ℕ) (s : Shared)
      → IsValid s.chunk
      → attempt < max_chunk_attempts
      → s.chunk.size + (max_chunk_attempts - attempt) ≤ fuel
      → Ends (fetch_loop fuel rounds now from to attempt s)
  fetch_loop_total zero rounds now from to attempt s v lt h = absurd (omega arith)
  fetch_loop_total (suc fuel) rounds now from to attempt s v lt h =
      after_turn fuel rounds now from to attempt s (fetch_round (rounds now) from to attempt s).0
        refl (fetch_round-Advances (rounds now) from to attempt s v lt) h
        (fetch_loop_total fuel rounds (now + 1) from to)

  -- From an adaptive size within its bounds, and whatever the endpoints answer, the fetch ends:
  -- with logs or with an error, and with the size within its bounds. The fuel, one turn for each
  -- block of the size and for each attempt, is never used up.
  pub fetch_filtered_logs_chunk_total :
      (rounds : ℕ → Round L) (from to : ℕ) (s : Shared)
      → IsValid s.chunk
      → Ends (fetch_filtered_logs_chunk rounds from to s)
  unfolding fetch_filtered_logs_chunk
  fetch_filtered_logs_chunk_total rounds from to s v =
      fetch_loop_total (s.chunk.size + max_chunk_attempts) rounds 0 from to 0 s v (omega arith)
        (omega arith)
