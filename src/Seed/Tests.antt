-- ===== src/Seed/Tests.antt =====
-- A seed with a frozen member, an exit and an entry.
use Prim.Native.Nat
use nox_indexer.Prelude.{
  get_elem?, ℕ, ◌≡◌, refl, Bool, true, false, Option, none, some, List, [], ◌∷◌,
}
use nox_indexer.Prelude.Text.{Text, text}
use nox_indexer.Prelude.Results.{Result, ok, err}
use nox_indexer.Sync.Status.{live}
use nox_indexer.Seed.Cache.{
  PinnedTopologyNode, CachedSeed, AppState, seed_cache_use, pinned_seed_members, text_ltb, rebuilt,
  refresh_seed_cache, refresh_from, store_verified, verify_seed_members, verify_at, cached_at,
  pinned_block, member_addresses, fall_back,
}
use nox_indexer.Nodes.Status.{NodeStatus, online}
use nox_indexer.Seed.Freshness.{IsServed, pinned_seed_members-IsServed}
use nox_indexer.Seed.Snapshot.{
  NodeReport, SeedLiveness, SeedTopologySnapshot, is_some, is_online, capabilities_of,
  publish_capabilities, liveness_of, snapshot_of, assemble_seed_topology, is_out_of_order,
}
use nox_indexer.Seed.Assembled.{IsShown, member_listed, online_exit_capabilities}

abbrev member : Text → ℕ → Bool → PinnedTopologyNode
member name role' frozen' = record {
  address = name;
  sphinx_key = [];
  url = [];
  stake = [];
  is_privileged = false;
  layer = 2;
  role = role';
  ingress_url = [];
  metadata_url = [];
  frozen = frozen';
}

abbrev members : List PinnedTopologyNode
members = member (text "a") 2 true ∷ member (text "b") 3 false ∷ []

abbrev statuses : Text → Option NodeStatus
statuses address = some online

abbrev observed_at : Text → Option ℕ
observed_at address = some 77

abbrev reports : Text → Option NodeReport
reports address = some (record {
  capabilities = some (text "paid_v2" ∷ []);
  build_version = none;
  pow_difficulty = some 20;
})

abbrev snapshot : SeedTopologySnapshot
snapshot = snapshot_of statuses observed_at reports members (text "f") 16 100 99

assembles :
    assemble_seed_topology statuses observed_at reports members (text "f") 16 100 99 ≡ ok snapshot
unfolding assemble_seed_topology is_out_of_order text_ltb
assembles = refl

abbrev entry : Bool → PinnedTopologyNode → SeedLiveness
entry = liveness_of statuses observed_at reports

first_entry : get_elem? snapshot.liveness 0 ≡ some (entry true (member (text "a") 2 true))
unfolding snapshot_of publish_capabilities is_online capabilities_of
first_entry = refl

second_entry : get_elem? snapshot.liveness 1 ≡ some (entry true (member (text "b") 3 false))
unfolding snapshot_of publish_capabilities is_online capabilities_of
second_entry = refl

member_listed_example :
    (l : SeedLiveness) × (get_elem? snapshot.liveness 0 ≡ some l)
    × (l.address ≡ text "a")
    × IsShown true (statuses (text "a")) l.status
member_listed_example =
    member_listed statuses observed_at reports members (text "f") 16 100 99 snapshot assembles 0
      (member (text "a") 2 true) refl

listed : is_some (entry true (member (text "b") 3 false)).capabilities ≡ true
unfolding liveness_of capabilities_of
listed = refl

shown_online : (entry true (member (text "b") 3 false)).status ≡ online
unfolding liveness_of is_online
shown_online = refl

online_exit_capabilities_example :
    is_some (entry true (member (text "b") 3 false)).capabilities ≡ true
online_exit_capabilities_example =
    online_exit_capabilities statuses observed_at reports members (text "f") 16 100 99 snapshot
      assembles 1 1 (member (text "b") 3 false) (entry true (member (text "b") 3 false))
      (entry true (member (text "b") 3 false)) refl second_entry second_entry listed shown_online
      refl

abbrev seed : CachedSeed
seed = record {
  block = 90;
  topology_version = 4;
  built_at = 0;
  members = members;
  fingerprint = text "f";
}

abbrev state : AppState
state = record {
  sync = record {
    phase = live;
    chain_id = some 1;
    registry_address = [];
    last_block = some 100;
    scan_block = some 100;
    verified = some true;
    attempts = 0;
    last_error = none;
    last_synced_at_ms = none;
    head_block = none;
  };
  nodes = record { address = text "a"; status = online } ∷ [];
  topology_version = 5;
  seed_cache = some seed;
}

-- The registry cannot be read.
abbrev unreadable : List Text → ℕ → Result (List PinnedTopologyNode × Text)
unreadable addresses block = err (text "down")

-- The membership has changed since the cached copy, whose version is 4; the old copy is served.
served_outdated : (pinned_seed_members unreadable state 1_000 2_000).0 ≡ ok seed
unfolding pinned_seed_members seed_cache_use rebuilt refresh_seed_cache refresh_from store_verified
    verify_seed_members verify_at cached_at pinned_block member_addresses fall_back
served_outdated = refl

pinned_seed_members-IsServed_example : IsServed unreadable state 1_000 2_000 seed
pinned_seed_members-IsServed_example =
    pinned_seed_members-IsServed unreadable state 1_000 2_000 seed served_outdated
