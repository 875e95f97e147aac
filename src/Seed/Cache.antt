-- ===== src/Seed/Cache.antt =====
-- The chain-pinned members of src/api.rs and their cache. An `Instant` is its number of nanoseconds;
-- the read of the members on chain is a parameter, and one request runs without another between its
-- reads of the shared state.
use nox_indexer.Prelude.{
  ℕ, zero, suc, ◌-◌, ◌*◌, ◌==◌, ltb, Bool, true, false, ◌&&◌, ◌||◌, not, Option, none, some, List,
  [], ◌∷◌, if◌then◌else◌,
}
use nox_indexer.Prelude.Text.{Text, text, to_lowercase, is_empty}
use nox_indexer.Prelude.Results.{Result, ok, err}
use nox_indexer.Nodes.Status.{NodeStatus, is_deregistered}
use nox_indexer.Sync.Status.{SyncPhase, starting, syncing, retrying, live, SyncStatus}

-- `PinnedTopologyNode` of src/chain/mod.rs.
pub record PinnedTopologyNode : Type 0 where
  pub address : Text
  pub sphinx_key : Text
  pub url : Text
  pub stake : Text
  pub is_privileged : Bool
  pub layer : ℕ
  pub role : ℕ
  pub ingress_url : Text
  pub metadata_url : Text
  pub frozen : Bool

pub record CachedSeed : Type 0 where
  pub block : ℕ
  pub topology_version : ℕ
  pub built_at : ℕ
  pub members : List PinnedTopologyNode
  pub fingerprint : Text

-- The fields of `NodeState` that the seed reads.
pub record NodeState : Type 0 where
  pub address : Text
  pub status : NodeStatus

-- The part of `AppState` that a seed request reads and writes.
pub record AppState : Type 0 where
  pub sync : SyncStatus
  pub nodes : List NodeState
  pub topology_version : ℕ
  pub seed_cache : Option CachedSeed

abbrev pub seed_cache_ttl : ℕ
seed_cache_ttl = 30 * 1_000_000_000

abbrev pub seed_stale_max : ℕ
seed_stale_max = 300 * 1_000_000_000

pub data SeedCacheUse : Type 0 where
  fresh : SeedCacheUse
  stale : SeedCacheUse
  rebuild : SeedCacheUse

abbrev pub age_use : ℕ → SeedCacheUse
age_use age =
    if ltb age seed_cache_ttl then fresh else if ltb age seed_stale_max then stale else rebuild

abbrev pub is_fresh : SeedCacheUse → Bool
is_fresh fresh = true
is_fresh stale = false
is_fresh rebuild = false

unfoldable pub seed_cache_use : Option CachedSeed → ℕ → ℕ → SeedCacheUse
seed_cache_use none version now = rebuild
seed_cache_use (some cached) version now =
    if not (cached.topology_version == version) then rebuild else age_use (now - cached.built_at)

-- The block that a seed is pinned to, and whether there is one.
unfoldable pub pinned_block : SyncPhase → Option ℕ → Option ℕ
pinned_block starting last_block = none
pinned_block syncing none = none
pinned_block syncing (some zero) = none
pinned_block syncing (some (suc n)) = some (suc n)
pinned_block retrying none = none
pinned_block retrying (some zero) = none
pinned_block retrying (some (suc n)) = some (suc n)
pinned_block live none = none
pinned_block live (some zero) = none
pinned_block live (some (suc n)) = some (suc n)

unfoldable pub seed_sync_ready : AppState → Bool
unfolding pinned_block
seed_sync_ready state = elim (pinned_block state.sync.phase state.sync.last_block) [
  | none ↦ false
  | some b ↦ true
]

-- `a < b` on strings: the order of their bytes, which is that of their code points.
unfoldable pub text_ltb : Text → Text → Bool
text_ltb [] [] = false
text_ltb [] (d ∷ t) = true
text_ltb (c ∷ s) [] = false
text_ltb (c ∷ s) (d ∷ t) = ltb c d || (c == d && text_ltb s t)

-- `sort`
unfoldable pub insert_sorted : Text → List Text → List Text
unfolding text_ltb
insert_sorted a [] = a ∷ []
insert_sorted a (b ∷ rest) = if text_ltb b a then b ∷ insert_sorted a rest else a ∷ b ∷ rest

-- The lower-case addresses of the registered nodes, sorted.
unfoldable pub member_addresses : List NodeState → List Text
unfolding insert_sorted
member_addresses [] = []
member_addresses (n ∷ rest) =
    let others = member_addresses rest in
    if is_deregistered n.status then others else insert_sorted (to_lowercase n.address) others

abbrev pub sync_not_completed : Text
sync_not_completed = text "chain sync has not completed yet"

abbrev pub seed_cache_emptied : Text
seed_cache_emptied = text "seed cache emptied"

abbrev pub no_members : Text
no_members = text "no replayed registered members are available"

module _ (pinned_topology_members : List Text → ℕ → Result (List PinnedTopologyNode × Text)) where
  -- A seed read at `block_number`, built at the time `now`.
  unfoldable pub cached_at : AppState → ℕ → List Text → ℕ → Result CachedSeed
  cached_at state block_number addresses now =
      if is_empty addresses
      then err no_members
      else elim (pinned_topology_members addresses block_number) [
        | err error ↦ err error
        | ok (members, fingerprint) ↦ ok (record {
          block = block_number;
          topology_version = state.topology_version;
          built_at = now;
          members = members;
          fingerprint = fingerprint;
        })
      ]

  unfoldable pub verify_at : AppState → Option ℕ → ℕ → Result CachedSeed
  unfolding cached_at
  verify_at state none now = err sync_not_completed
  verify_at state (some block_number) now =
      cached_at state block_number (member_addresses state.nodes) now

  unfoldable pub verify_seed_members : AppState → ℕ → Result CachedSeed
  unfolding verify_at
  verify_seed_members state now =
      verify_at state (pinned_block state.sync.phase state.sync.last_block) now

  -- A verified copy is stored; a failure leaves the state.
  abbrev pub stored_from : AppState → Result CachedSeed → Result CachedSeed × AppState
  stored_from state (err error) = (err error, state)
  stored_from state (ok seed) = (ok seed, record state { seed_cache = some seed })

  unfoldable pub store_verified : AppState → ℕ → Result CachedSeed × AppState
  unfolding verify_seed_members
  store_verified state now = stored_from state (verify_seed_members state now)

  -- A refresh whose turn comes at `now` and whose read of the chain ends at `later`; a fresh copy that
  -- another task stored is the answer.
  unfoldable pub refresh_from : Option CachedSeed → AppState → ℕ → ℕ → Result CachedSeed × AppState
  unfolding store_verified seed_cache_use
  refresh_from none state now later = store_verified state later
  refresh_from (some cached) state now later =
      if is_fresh (seed_cache_use (some cached) state.topology_version now)
      then (ok cached, state)
      else store_verified state later

  unfoldable pub refresh_seed_cache : AppState → ℕ → ℕ → Result CachedSeed × AppState
  unfolding refresh_from
  refresh_seed_cache state now later = refresh_from state.seed_cache state now later

  -- The answer from the old copy when the rebuild failed.
  unfoldable pub fall_back : Option CachedSeed → Text → ℕ → Result CachedSeed
  fall_back none error now = err error
  fall_back (some cached) error now =
      if ltb (now - cached.built_at) seed_stale_max then ok cached else err error

  abbrev pub with_fallback :
      Option CachedSeed → ℕ → Result CachedSeed × AppState → Result CachedSeed × AppState
  with_fallback cached later (ok seed, state) = (ok seed, state)
  with_fallback cached later (err error, state) = (fall_back cached error later, state)

  -- A rebuild whose turn comes at `now` and that ends at `later`.
  unfoldable pub rebuilt : AppState → ℕ → ℕ → Result CachedSeed × AppState
  unfolding refresh_seed_cache fall_back
  rebuilt state now later =
      with_fallback state.seed_cache later (refresh_seed_cache state now later)

  abbrev pub answer_by :
      SeedCacheUse → Option CachedSeed → AppState → ℕ → ℕ → Result CachedSeed × AppState
  answer_by fresh none state now later = (err seed_cache_emptied, state)
  answer_by fresh (some cached) state now later = (ok cached, state)
  answer_by stale none state now later = (err seed_cache_emptied, state)
  answer_by stale (some cached) state now later = (ok cached, state)
  answer_by rebuild cached state now later = rebuilt state now later

  -- The members for one request at `now`, whose rebuild ends at `later`, and the state after it. The
  -- background refresh of a stale copy is a task of its own: `refresh_in_background`.
  unfoldable pub pinned_seed_members : AppState → ℕ → ℕ → Result CachedSeed × AppState
  unfolding rebuilt seed_cache_use
  pinned_seed_members state now later =
      answer_by (seed_cache_use state.seed_cache state.topology_version now) state.seed_cache state
        now later

  -- The task that `spawn_seed_refresh` starts.
  unfoldable pub refresh_in_background : AppState → ℕ → AppState
  unfolding store_verified
  refresh_in_background state now = (store_verified state now).1

  -- One turn of `seed_warm_loop`.
  unfoldable pub warm : AppState → ℕ → ℕ → AppState
  unfolding refresh_seed_cache seed_sync_ready
  warm state now later =
      if seed_sync_ready state then (refresh_seed_cache state now later).1 else state
