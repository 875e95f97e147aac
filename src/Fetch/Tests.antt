-- ===== src/Fetch/Tests.antt =====
-- A fetch of 1 500 blocks over one endpoint.
use nox_indexer.Prelude.{ℕ, ◌≡◌, refl, false, some, [], ◌∷◌, arith}
use nox_indexer.Prelude.Text.{text}
use nox_indexer.Retry.Chunk.{AdaptiveChunk, on_success}
use nox_indexer.Retry.Bounds.{IsValid}
use nox_indexer.Rpc.Endpoints.{value}
use nox_indexer.Rpc.Failover.{request, try_from, after_success, block_number_on}
use nox_indexer.Fetch.Chunked.{
  fetch_loop, fetch_round, request_end, after_request, check_logs_endpoint_head, Round, fetched,
  Shared, fetch_filtered_logs_chunk,
}
use nox_indexer.Fetch.Progress.{Ends, fetch_filtered_logs_chunk_total}
use nox_indexer.Fetch.Coverage.{IsCovered, fetch_filtered_logs_chunk-IsCovered}

abbrev start_chunk : AdaptiveChunk
start_chunk = record { size = 1_000; min = 100; ceiling = 5_000; streak = 0 }

start_chunk-IsValid : IsValid start_chunk
start_chunk-IsValid = record {
  positive = omega arith;
  floor = omega arith;
  within = omega arith;
  word = omega arith;
}

abbrev shared : Shared
shared = record {
  chunk = start_chunk;
  http = record {
    endpoints = record { label = text "a"; secrets = [] } ∷ [];
    preferred = 0;
    logs_served_by = 0;
  };
}

-- One log at the start of the range, from an endpoint whose head is block 9 000.
abbrev rounds : ℕ → Round ℕ
rounds n = record {
  logs = λ from end index. value (from ∷ []);
  heads = λ index. value 9_000;
  cancelled = false;
}

abbrev after : Shared
after = record shared { chunk = record start_chunk { streak = 1 } }

one_round :
    fetch_filtered_logs_chunk rounds 501 2_000 shared ≡ some (fetched (501 ∷ []) 1_500, after)
unfolding fetch_filtered_logs_chunk fetch_loop fetch_round request_end request try_from
    after_success after_request check_logs_endpoint_head block_number_on on_success
one_round = refl

fetch_filtered_logs_chunk-IsCovered_example :
    (n : ℕ) × IsCovered (rounds n) 501 2_000 (501 ∷ []) 1_500
fetch_filtered_logs_chunk-IsCovered_example =
    fetch_filtered_logs_chunk-IsCovered rounds 501 2_000 shared (omega arith) (omega arith)
      one_round

fetch_filtered_logs_chunk_total_example : Ends (fetch_filtered_logs_chunk rounds 501 2_000 shared)
fetch_filtered_logs_chunk_total_example =
    fetch_filtered_logs_chunk_total rounds 501 2_000 shared start_chunk-IsValid
