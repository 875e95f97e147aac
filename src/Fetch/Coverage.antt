-- ===== src/Fetch/Coverage.antt =====
-- What the logs of a successful fetch are worth.
use nox_indexer.Prelude.{
  ℕ, zero, suc, ◌+◌, ◌-◌, ◌≤◌, ◌<◌, ◌≡◌, refl, ◌⊎◌, inl, inr, leb, true, none, some, List, arith,
  leb→le, Bool-cases, Option-cases,
}
use nox_indexer.Prelude.Words.{u64_mod}
use nox_indexer.Prelude.Text.{Text}
use nox_indexer.Rpc.Endpoints.{FailoverHttp, Reply, value}
use nox_indexer.Rpc.Failover.{
  Served, served, refused, request, block_number_on, head, unknown_head, HeadResult,
}
use nox_indexer.Rpc.Coverage.{request_served_by}
use nox_indexer.Fetch.Chunked.{
  Round, Fetched, fetched, gave_up, Shared, Step, done, retry, method, request_end,
  check_logs_endpoint_head, failed_round, after_request, fetch_round, fetch_loop,
  fetch_filtered_logs_chunk, head_check_window, max_chunk_attempts,
}

-- Far enough behind the target, or at most as far as the endpoint's own head.
abbrev pub IsReached : (ℕ → Reply ℕ) → ℕ → ℕ → ℕ → Type 0
IsReached heads index end to =
    (head_check_window ≤ to - end) ⊎ ((block : ℕ) × (heads index ≡ value block) × (end ≤ block))

head_reached :
    (heads : ℕ → Reply ℕ) (http : FailoverHttp) (index block : ℕ)
    → block_number_on heads http index ≡ head block
    → heads index ≡ value block
unfolding block_number_on
head_reached heads http index block e = ground arith

head_cases :
    (h : HeadResult)
    → ((block : ℕ) × (h ≡ head block)) ⊎ ((shown : Text) × (h ≡ unknown_head shown))
head_cases (head block) = inl (block, refl)
head_cases (unknown_head shown) = inr (shown, refl)

check-IsReached :
    (heads : ℕ → Reply ℕ) (http : FailoverHttp) (end to : ℕ)
    → (check_logs_endpoint_head heads http end to).0 ≡ none
    → IsReached heads http.logs_served_by end to
unfolding check_logs_endpoint_head
check-IsReached heads http end to e = elim (Bool-cases (leb head_check_window (to - end))) [
  | inl far ↦ inl (leb→le head_check_window (to - end) far)
  | inr near ↦ elim (head_cases (block_number_on heads http http.logs_served_by)) [
    | inl (block, eh) ↦
        let e' = rw (near, eh, check_logs_endpoint_head) at e in
        inr (block, head_reached heads http http.logs_served_by block eh, ground arith)
    | inr (shown, eh) ↦ let e' = rw (near, eh, check_logs_endpoint_head) at e in cc
  ]
]

-- What one round establishes about the logs that the loop returns.
abbrev pub IsCovered : {L : Type 0} → Round L → ℕ → ℕ → List L → ℕ → Type 0
IsCovered round from to logs end =
    (from ≤ end)
    × (end ≤ to)
    × ((index : ℕ) × (round.logs from end index ≡ value logs) × IsReached round.heads index end to)

step_cases :
    {L : Type 0} (step : Step L)
    → ((result : Fetched L) × (step ≡ done result)) ⊎ ((attempt : ℕ) × (step ≡ retry attempt))
step_cases (done result) = inl (result, refl)
step_cases (retry attempt) = inr (attempt, refl)

module _ {L : Type 0} where
  abbrev IsSound : Round L → ℕ → ℕ → Step L → Type 0
  IsSound round from to (done (fetched logs end)) = IsCovered round from to logs end
  IsSound round from to (done (gave_up error)) = Unit
  IsSound round from to (retry attempt) = Unit

  failed_round-IsSound :
      (round : Round L) (from to end requested : ℕ) (error : Text) (attempt : ℕ) (s : Shared)
      → IsSound round from to (failed_round round from end requested error attempt s).0
  unfolding failed_round
  failed_round-IsSound round from to end requested error attempt s = ground arith

  after_request-IsSound :
      (round : Round L) (from to end requested attempt : ℕ) (s : Shared)
      (answer : Served (List L) × FailoverHttp)
      → from ≤ end
      → end ≤ to
      → request (round.logs from end) method true s.http ≡ answer
      → IsSound round from to (after_request round from to end requested attempt s.chunk answer).0
  unfolding after_request
  after_request-IsSound round from to end requested attempt s (served logs, http) low high e =
      elim (Option-cases (check_logs_endpoint_head round.heads http end to).0) [
        | inl ok ↦
            rw (ok, after_request)
              (
                low,
                high,
                (
                  http.logs_served_by,
                  request_served_by (round.logs from end) method s.http e,
                  check-IsReached round.heads http end to ok,
                ),
              )
        | inr (error, problem) ↦
            rw (problem, after_request)
              (failed_round-IsSound round from to end requested error attempt
                (record s { http = (check_logs_endpoint_head round.heads http end to).1 }))
      ]
  after_request-IsSound round from to end requested attempt s (refused summary last, http) low high
        e =
      failed_round-IsSound round from to end requested summary attempt (record s { http = http })

  fetch_round-IsSound :
      (round : Round L) (from to attempt : ℕ) (s : Shared)
      → from ≤ to
      → to < u64_mod
      → IsSound round from to (fetch_round round from to attempt s).0
  unfolding fetch_round request_end
  fetch_round-IsSound round from to attempt s h w =
      let end = request_end from to s.chunk.size in
      after_request-IsSound round from to end (end - from + 1) attempt s
        (request (round.logs from end) method true s.http) (ground arith) (ground arith) refl

  fetch_loop-IsCovered :
      (fuel : ℕ) (rounds : ℕ → Round L) (now from to attempt : ℕ) (s : Shared) {logs : List L}
      {end : ℕ} {s' : Shared}
      → from ≤ to
      → to < u64_mod
      → fetch_loop fuel rounds now from to attempt s ≡ some (fetched logs end, s')
      → (n : ℕ) × IsCovered (rounds n) from to logs end
  unfolding fetch_loop
  fetch_loop-IsCovered zero rounds now from to attempt s h w e = cc
  fetch_loop-IsCovered (suc fuel) rounds now from to attempt s {logs} {end} {s'} h w e =
      elim (step_cases (fetch_round (rounds now) from to attempt s).0) [
        | inl (result, es) ↦
            let e' = rw (es, fetch_loop) at e in
            let ended : (fetch_round (rounds now) from to attempt s).0 ≡ done (fetched logs end) =
              cc in
            (now, rw ended at (fetch_round-IsSound (rounds now) from to attempt s h w))
        | inr (attempt', es) ↦
            fetch_loop-IsCovered fuel rounds (now + 1) from to attempt'
              (fetch_round (rounds now) from to attempt s).1 h w (rw (es, fetch_loop) at e)
      ]

  -- For `from` at most `to` and `to` a `u64`, a successful fetch covers a range that begins at
  -- `from` and ends at or before `to`. In one of its rounds one endpoint answered with exactly
  -- these logs for exactly this range, and either the range ends far behind the target or that same
  -- endpoint's head, in that round, was at its end or beyond.
  pub fetch_filtered_logs_chunk-IsCovered :
      (rounds : ℕ → Round L) (from to : ℕ) (s : Shared) {logs : List L} {end : ℕ} {s' : Shared}
      → from ≤ to
      → to < u64_mod
      → fetch_filtered_logs_chunk rounds from to s ≡ some (fetched logs end, s')
      → (n : ℕ) × IsCovered (rounds n) from to logs end
  unfolding fetch_filtered_logs_chunk
  fetch_filtered_logs_chunk-IsCovered rounds from to s h w e =
      fetch_loop-IsCovered (s.chunk.size + max_chunk_attempts) rounds 0 from to 0 s h w e
