-- ===== src/Lib.antt =====
-- The indexer of the nox network (src/ holds the program). It follows the NoxRegistry contract
-- through several JSON-RPC endpoints, keeps the member set in memory and in Postgres, reads the
-- metrics of the nodes, and serves a chain-pinned seed topology, status and figures over HTTP.
--
-- The parts, and the files that model them:
--
--  * Prelude: names that every module shares. Numbers are natural numbers; a machine word keeps its
--    wrap-around or saturation written out. Text is a list of code points.
--  * Retry (src/chain/retry.rs): `AdaptiveChunk`, the size of the next log request, with its methods
--    `on_success`, `on_range_error` and `on_rate_limited`; `classify_rpc_error`; `backoff_delay`.
--  * Rpc (src/chain/rpc.rs): `FailoverHttp`, the client over several endpoints. The transport's answers
--    are an argument, a function from the endpoint's index. `parse_rpc_urls` is in Rpc/Urls.
--  * Fetch (src/chain/mod.rs): `fetch_filtered_logs_chunk`, the loop that asks for logs through Rpc,
--    feeds the outcome to Retry and checks the head of the endpoint. What the network does in a round is
--    an argument. The fuel is the size of the first request and the number of attempts; each turn either
--    shrinks the size or uses an attempt, so that it is enough.
--  * Registry (src/chain/mod.rs, src/chain/discovery.rs): the events, the replay `scan_membership` over
--    Fetch's answers, the plan behind a checkpoint, and the check against the registry's count and
--    fingerprint. The ABI decoder and keccak256 are parameters. The fuel of a scan is the number of
--    blocks left, of which every chunk covers one at least.
--  * Offsets (src/node/offsets.rs): the lifetime figures of a node over restarts and capped readings.
--    Figures are natural numbers and the ceilings are scaled to whole units; the source computes in f64.
--  * Sync (src/state.rs, src/api.rs): the public status of the sync, its health and `/healthz/sync`.
--  * Seed (src/api.rs): the cache of the pinned members with its refreshes, and the assembly of
--    `/seed/topology`. The read of the members on chain is a parameter; a request runs without another
--    task between its reads of the shared state, and times are arguments.
--  * Settlement (src/chain/settlement.rs, src/db.rs): the storing of decoded events in their tables,
--    the join of the settlement and claim aggregates, and the refresh of the summary with the reads of
--    the reward pool, which are parameters.
--  * Nodes (src/state.rs, src/node/targets.rs, src/chain/mod.rs, src/db.rs): the status and the state of
--    a node, its row in the database, its admin URL and the addresses that may be polled. SHA-256 and the
--    parsers of addresses and URLs are parameters; the coordinates of a node are left out.
--  * Discovery (src/chain/discovery.rs, src/chain/mod.rs, src/db.rs, src/state.rs): the shared state that
--    the sync writes with the tables behind it; the live events and the status changes of the uptime
--    checks; `reconcile_membership`; `initial_chain_sync`, on `scan_membership` of Registry, and what
--    `run_chain_sync` makes of its outcome; one turn of `chain_event_loop`. What the chain and the database
--    answer comes from arguments or from a state of the world outside. The fuel of a turn is the number
--    of blocks behind the head, of which each chunk covers one at least.
--  * Subscriber (src/node/subscriber.rs, src/node/events.rs, src/state.rs): `process_event` with its
--    deduplication, one round of `manage_subscriptions`, the ticks of `scrape_node_metrics` after its
--    requests, with Offsets, and the flush of the offsets.
--  * Profile (src/chain/profile.rs): `decode_relayer_profile`. The ABI decoder is a parameter, and a panic
--    of the 64-bit conversion is a result of its own.
--  * Config (src/config.rs): `NetworkConfig::resolve`.
--
-- Modules named Tests run the definitions on concrete inputs.
--
-- Not modelled: the SQL of src/db.rs but for the statements named above, since the server runs it;
-- src/main.rs, src/broadcast.rs and src/geo.rs, which start tasks and move bytes; of
-- src/node/subscriber.rs the requests and the event streams; of src/chain/mod.rs the reads of
-- profiles; of src/chain/discovery.rs the waits of the supervisor; of src/chain/settlement.rs the
-- decoding of events and the outer loops; interleavings of two tasks within one step; logging.
pub mod Prelude
pub mod Retry
pub mod Rpc
pub mod Fetch
pub mod Registry
pub mod Offsets
pub mod Sync
pub mod Seed
pub mod Settlement
pub mod Nodes
pub mod Discovery
pub mod Subscriber
pub mod Profile
pub mod Config
