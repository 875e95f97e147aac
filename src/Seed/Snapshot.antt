-- ===== src/Seed/Snapshot.antt =====
-- `assemble_seed_topology` of src/api.rs. The maps keyed by address are functions; a list of
-- capabilities and a version are what the node reports.
use Prim.Native.Nat
use nox_indexer.Prelude.{
  ℕ, ◌==◌, Bool, true, false, ◌&&◌, ◌||◌, not, Option, none, some, List, [], ◌∷◌, map,
  if◌then◌else◌,
}
use nox_indexer.Prelude.Text.{Text, text, is_empty}
use nox_indexer.Prelude.Results.{Result, ok, err}
use nox_indexer.Seed.Cache.{PinnedTopologyNode, text_ltb}
use nox_indexer.Nodes.Status.{NodeStatus, online, offline, deregistered}

pub record NodeReport : Type 0 where
  pub capabilities : Option (List Text)
  pub build_version : Option Text
  pub pow_difficulty : Option ℕ

pub record SeedTopologyNode : Type 0 where
  pub address : Text
  pub sphinx_key : Text
  pub url : Text
  pub stake : Text
  pub last_seen : ℕ
  pub is_privileged : Bool
  pub layer : ℕ
  pub role : ℕ
  pub ingress_url : Text
  pub metadata_url : Text
  pub frozen : Bool

pub record SeedLiveness : Type 0 where
  pub address : Text
  pub status : NodeStatus
  pub observed_at_unix : ℕ
  pub capabilities : Option (List Text)
  pub build_version : Option Text

pub record SeedTopologySnapshot : Type 0 where
  pub schema_version : ℕ
  pub nodes : List SeedTopologyNode
  pub fingerprint : Text
  pub timestamp : ℕ
  pub block_number : ℕ
  pub pow_difficulty : ℕ
  pub liveness : List SeedLiveness

-- 2 is an exit and 3 a full node.
abbrev pub is_exit_role : ℕ → Bool
is_exit_role role = role == 2 || role == 3

abbrev pub is_online_status : Option NodeStatus → Bool
is_online_status none = false
is_online_status (some online) = true
is_online_status (some offline) = false
is_online_status (some deregistered) = false

abbrev pub is_some {ℓ} : {A : Type ℓ} → Option A → Bool
is_some none = false
is_some (some a) = true

abbrev pub and_then {ℓ κ} : {A : Type ℓ} {B : Type κ} → Option A → (A → Option B) → Option B
and_then none f = none
and_then (some a) f = f a

-- `windows(2).any(|pair| pair[0].address >= pair[1].address)`
unfoldable pub is_out_of_order : List PinnedTopologyNode → Bool
unfolding text_ltb
is_out_of_order [] = false
is_out_of_order (a ∷ []) = false
is_out_of_order (a ∷ b ∷ rest) = not (text_ltb a.address b.address) || is_out_of_order (b ∷ rest)

module _ (statuses : Text → Option NodeStatus) (observed_at : Text → Option ℕ)
    (reports : Text → Option NodeReport) where
  unfoldable pub is_online : PinnedTopologyNode → Bool
  is_online member = not member.frozen && is_online_status (statuses member.address)

  unfoldable pub capabilities_of : PinnedTopologyNode → Option (List Text)
  capabilities_of member = and_then (reports member.address) (λ r. r.capabilities)

  unfoldable pub difficulty_of : PinnedTopologyNode → Option ℕ
  difficulty_of member = and_then (reports member.address) (λ r. r.pow_difficulty)

  -- Whether every online exit reports its capabilities.
  unfoldable pub publish_capabilities : List PinnedTopologyNode → Bool
  unfolding is_online capabilities_of
  publish_capabilities [] = true
  publish_capabilities (member ∷ rest) =
      (not (is_online member && is_exit_role member.role) || is_some (capabilities_of member))
      && publish_capabilities rest

  abbrev larger : Option ℕ → ℕ → ℕ
  larger none best = best
  larger (some d) best = Nat.max d best

  -- The highest difficulty that an online member reports, or 0.
  unfoldable pub highest_difficulty : List PinnedTopologyNode → ℕ
  unfolding is_online difficulty_of
  highest_difficulty [] = 0
  highest_difficulty (member ∷ rest) =
      let best = highest_difficulty rest in
      if is_online member then larger (difficulty_of member) best else best

  abbrev pub observation : PinnedTopologyNode → ℕ
  observation member = elim (observed_at member.address) [ none ↦ 0 | some at ↦ at ]

  unfoldable pub liveness_of : Bool → PinnedTopologyNode → SeedLiveness
  unfolding is_online capabilities_of
  liveness_of publish member = record {
    address = member.address;
    status = if is_online member then online else offline;
    observed_at_unix = observation member;
    capabilities = if publish then capabilities_of member else none;
    build_version = and_then (reports member.address) (λ r. r.build_version);
  }

  unfoldable pub node_of : PinnedTopologyNode → SeedTopologyNode
  node_of member = record {
    address = member.address;
    sphinx_key = member.sphinx_key;
    url = member.url;
    stake = member.stake;
    last_seen = observation member;
    is_privileged = member.is_privileged;
    layer = member.layer;
    role = member.role;
    ingress_url = member.ingress_url;
    metadata_url = member.metadata_url;
    frozen = member.frozen;
  }

  unfoldable pub snapshot_of : List PinnedTopologyNode → Text → ℕ → ℕ → ℕ → SeedTopologySnapshot
  unfolding publish_capabilities highest_difficulty liveness_of node_of
  snapshot_of members fingerprint max_pow_difficulty block_number now_unix = record {
    schema_version = 2;
    nodes = map node_of members;
    fingerprint = fingerprint;
    timestamp = now_unix;
    block_number = block_number;
    pow_difficulty = Nat.min (highest_difficulty members) max_pow_difficulty;
    liveness = map (liveness_of (publish_capabilities members)) members;
  }

  unfoldable pub assemble_seed_topology :
      List PinnedTopologyNode → Text → ℕ → ℕ → ℕ → Result SeedTopologySnapshot
  unfolding is_out_of_order snapshot_of
  assemble_seed_topology members fingerprint max_pow_difficulty block_number now_unix =
      if is_empty members
      then err (text "pinned topology has no members")
      else if is_out_of_order members
      then err (text "pinned members are not in canonical address order")
      else ok (snapshot_of members fingerprint max_pow_difficulty block_number now_unix)
