-- ===== src/Fetch/Chunked.antt =====
-- The retry loop round `eth_getLogs` in src/chain/mod.rs, over the adaptive size and the failover
-- client. What the endpoints answer in each round, and whether the process is told to stop while it
-- waits, is the argument `rounds`. The loop runs on fuel; `none` means that the fuel ran out.
-- No caller asks for a range that starts above its end, where the source's subtraction does not stop at
-- zero as the one here does.
use Prim.Native.Nat
use nox_indexer.Prelude.{
  ℕ, zero, suc, ◌+◌, ◌-◌, ltb, leb, Bool, true, false, Option, none, some, List, ◌++◌,
  if◌then◌else◌,
}
use nox_indexer.Prelude.Words.{saturating_add}
use nox_indexer.Prelude.Text.{Text, text, show_u64}
use nox_indexer.Retry.Chunk.{AdaptiveChunk, on_success, on_range_error, on_rate_limited}
use nox_indexer.Retry.Classify.{
  RpcErrorKind, range_too_large, rate_limited, transient, classify_rpc_error,
}
use nox_indexer.Rpc.Endpoints.{FailoverHttp, Reply, label}
use nox_indexer.Rpc.Failover.{
  Served, served, refused, request, demote, head, unknown_head, block_number_on,
}

-- `MAX_CHUNK_ATTEMPTS`
abbrev pub max_chunk_attempts : ℕ
max_chunk_attempts = 8

-- `HEAD_CHECK_WINDOW`
abbrev pub head_check_window : ℕ
head_check_window = 100_000

-- What the network does in one round: the logs that an endpoint returns for a block range, the head
-- that it reports, and whether shutdown is requested during the wait that ends the round.
pub record Round (L : Type 0) : Type 0 where
  pub logs : ℕ → ℕ → ℕ → Reply (List L)
  pub heads : ℕ → Reply ℕ
  pub cancelled : Bool

pub data Fetched (L : Type 0) : Type 0 where
  fetched : List L → ℕ → Fetched L
  gave_up : Text → Fetched L

-- The state that the loop shares with other requests.
pub record Shared : Type 0 where
  pub chunk : AdaptiveChunk
  pub http : FailoverHttp

abbrev pub method : Text
method = text "eth_getLogs"

-- The last block of a request: `from.saturating_add(span.saturating_sub(1)).min(to)`
unfoldable pub request_end : ℕ → ℕ → ℕ → ℕ
request_end from to span = Nat.min (saturating_add from (span - 1)) to

-- The text of the error for an endpoint whose head is below the end of the range.
unfoldable pub behind_text : Text → ℕ → ℕ → Text
behind_text label' head' end =
    label'
    ++ text " is behind: its head "
    ++ show_u64 head'
    ++ text " is below requested log end "
    ++ show_u64 end
    ++ text "; discarding the possibly truncated result"

-- The result of `check_logs_endpoint_head`: `none` is success.
unfoldable pub check_logs_endpoint_head :
    (ℕ → Reply ℕ) → FailoverHttp → ℕ → ℕ → Option Text × FailoverHttp
check_logs_endpoint_head heads http end to =
    let index = http.logs_served_by in
    let checked : Option Text × FailoverHttp = elim (block_number_on heads http index) [
      | unknown_head shown ↦ (some shown, http)
      | head block ↦
          if leb end block
          then (none, http)
          else (some (behind_text (label http index) block end), demote http index)
    ] in
    if leb head_check_window (to - end) then (none, http) else checked

-- What an error does to the size, and whether the request is repeated at once.
unfoldable pub after_error : AdaptiveChunk → ℕ → RpcErrorKind → AdaptiveChunk × Bool
after_error chunk requested (range_too_large hint) =
    let chunk' = on_range_error chunk requested hint in (chunk', ltb chunk'.size requested)
after_error chunk requested rate_limited = (on_rate_limited chunk, false)
after_error chunk requested transient = (chunk, false)

pub data Step (L : Type 0) : Type 0 where
  done : Fetched L → Step L
  retry : ℕ → Step L

module _ {L : Type 0} where
  unfoldable pub failed_round : Round L → ℕ → ℕ → ℕ → Text → ℕ → Shared → Step L × Shared
  failed_round round from end requested error attempt s =
      let (chunk', shrunk) = after_error s.chunk requested (classify_rpc_error error) in
      let s' = record s { chunk = chunk' } in
      let attempt' = attempt + 1 in
      if shrunk
      then (retry attempt, s')
      else if leb max_chunk_attempts attempt'
      then (
        done (
            gave_up (
              text "eth_getLogs "
              ++ show_u64 from
              ++ text ".."
              ++ show_u64 end
              ++ text " failed after "
              ++ show_u64 attempt'
              ++ text " attempts: "
              ++ error)),
        s',
      )
      else if round.cancelled
      then (done (gave_up (text "eth_getLogs: shutting down")), s')
      else (retry attempt', s')

  -- What follows the answer to `eth_getLogs`.
  unfoldable pub after_request :
      Round L → ℕ → ℕ → ℕ → ℕ → ℕ → AdaptiveChunk → Served (List L) × FailoverHttp → Step L × Shared
  after_request round from to end requested attempt chunk (served logs, http) =
      let (problem, http') = check_logs_endpoint_head round.heads http end to in
      elim problem [
        | none ↦ (done (fetched logs end), record { chunk = on_success chunk; http = http' })
        | some error ↦
            failed_round round from end requested error attempt
              (record { chunk = chunk; http = http' })
      ]
  after_request round from to end requested attempt chunk (refused summary last, http) =
      failed_round round from end requested summary attempt (record { chunk = chunk; http = http })

  -- One turn of the loop.
  unfoldable pub fetch_round : Round L → ℕ → ℕ → ℕ → Shared → Step L × Shared
  fetch_round round from to attempt s =
      let end = request_end from to s.chunk.size in
      let requested = end - from + 1 in
      after_request round from to end requested attempt s.chunk
        (request (round.logs from end) method true s.http)

  unfoldable pub fetch_loop :
      ℕ → (ℕ → Round L) → ℕ → ℕ → ℕ → ℕ → Shared → Option (Fetched L × Shared)
  fetch_loop zero rounds now from to attempt s = none
  fetch_loop (suc fuel) rounds now from to attempt s =
      let (step, s') = fetch_round (rounds now) from to attempt s in
      elim step [
        | done result ↦ some (result, s')
        | retry attempt' ↦ fetch_loop fuel rounds (now + 1) from to attempt' s'
      ]

  -- `fetch_filtered_logs_chunk`, with fuel for every shrink of the size and every counted attempt.
  unfoldable pub fetch_filtered_logs_chunk :
      (ℕ → Round L) → ℕ → ℕ → Shared → Option (Fetched L × Shared)
  unfolding fetch_loop
  fetch_filtered_logs_chunk rounds from to s =
      fetch_loop (s.chunk.size + max_chunk_attempts) rounds 0 from to 0 s
