-- ===== src/Discovery/State.antt =====
-- The part of `AppState` of src/state.rs that chain discovery writes, and the tables of src/db.rs
-- behind it: the nodes and the checkpoints. A statement that the database refuses changes nothing.
-- A wake-up of the uptime checks is a flag; broadcasts are left out.
use Prim.Native.Nat
use nox_indexer.Prelude.{
  ℕ, suc, ◌%◌, ◌==◌, Bool, false, ◌&&◌, ◌||◌, not, Option, none, some, List, [], ◌∷◌, if◌then◌else◌,
}
use nox_indexer.Prelude.Words.{u64_mod}
use nox_indexer.Prelude.Text.{Text, text, text_eq, to_lowercase}
use nox_indexer.Prelude.Maps.{Map, get, put, modify, map_entries}
use nox_indexer.Sync.Status.{SyncStatus, i64_max}
use nox_indexer.Offsets.Observe.{StructuredMetrics}
use nox_indexer.Nodes.Status.{NodeStatus, as_str}
use nox_indexer.Nodes.Targets.{IpAddr}
use nox_indexer.Nodes.State.{NodeState, NodeRow, row_of, from_row}

-- A row of `indexer_checkpoints`.
pub record Checkpoint : Type 0 where
  pub chain_id : ℕ
  pub registry_address : Text
  pub last_block : ℕ

pub record Db : Type 0 where
  pub nodes : Map NodeRow
  pub checkpoints : List Checkpoint

pub record AppState : Type 0 where
  pub db : Db
  pub nodes : Map NodeState
  pub metrics : Map StructuredMetrics
  pub pow_difficulties : Map ℕ
  pub sync : SyncStatus
  pub topology_version : ℕ
  pub probe_now : Bool

-- `AppState::bump_topology_version`
unfoldable pub bump_topology_version : AppState → AppState
bump_topology_version state = record state {
  topology_version = suc state.topology_version % u64_mod;
}

abbrev pub on_nodes : (Map NodeRow → Map NodeRow) → Db → Db
on_nodes f db = record db { nodes = f db.nodes }

-- `Db::upsert_node`
unfoldable pub upsert_node : NodeState → Map NodeRow → Map NodeRow
unfolding row_of
upsert_node node rows = put node.address (row_of node) rows

-- `Db::update_node_status`
unfoldable pub update_node_status : Text → NodeStatus → Map NodeRow → Map NodeRow
unfolding as_str
update_node_status address status rows =
    modify address (λ row. record row { status = as_str status }) rows

abbrev pub deregistered_row : NodeRow → NodeRow
deregistered_row row = record row { status = text "deregistered" }

-- `Db::deregister_node`
unfoldable pub deregister_node : Text → Map NodeRow → Map NodeRow
deregister_node address rows = modify address deregistered_row rows

abbrev pub is_registered_row : NodeRow → Bool
is_registered_row row = not (text_eq row.status (text "deregistered"))

-- `lower(address) = ANY(keep)`, the kept addresses in lower case.
unfoldable pub is_kept : List Text → Text → Bool
is_kept [] address = false
is_kept (k ∷ keep) address = text_eq (to_lowercase k) (to_lowercase address) || is_kept keep address

abbrev pub pruned : List Text → Text → NodeRow → NodeRow
pruned keep address row =
    if is_registered_row row && not (is_kept keep address) then deregistered_row row else row

-- `Db::deregister_nodes_except`
unfoldable pub deregister_nodes_except : List Text → Map NodeRow → Map NodeRow
unfolding is_kept
deregister_nodes_except keep rows = map_entries (pruned keep) rows

abbrev pub is_checkpoint_of : ℕ → Text → Checkpoint → Bool
is_checkpoint_of chain_id registry row =
    row.chain_id == chain_id && text_eq row.registry_address registry

unfoldable pub checkpoint_at : ℕ → Text → List Checkpoint → Option ℕ
checkpoint_at chain_id registry [] = none
checkpoint_at chain_id registry (row ∷ rows) =
    if is_checkpoint_of chain_id registry row
    then some row.last_block
    else checkpoint_at chain_id registry rows

-- `Db::get_checkpoint`
unfoldable pub get_checkpoint : ℕ → Text → List Checkpoint → Option ℕ
unfolding checkpoint_at
get_checkpoint chain_id registry rows =
    checkpoint_at (Nat.min chain_id i64_max) (to_lowercase registry) rows

unfoldable pub checkpoint_put : ℕ → Text → ℕ → List Checkpoint → List Checkpoint
checkpoint_put chain_id registry block [] =
    record { chain_id = chain_id; registry_address = registry; last_block = block } ∷ []
checkpoint_put chain_id registry block (row ∷ rows) =
    if is_checkpoint_of chain_id registry row
    then record row { last_block = block } ∷ rows
    else row ∷ checkpoint_put chain_id registry block rows

-- `Db::set_checkpoint`
unfoldable pub set_checkpoint : ℕ → Text → ℕ → List Checkpoint → List Checkpoint
unfolding checkpoint_put
set_checkpoint chain_id registry block rows =
    checkpoint_put (Nat.min chain_id i64_max) (to_lowercase registry) (Nat.min block i64_max) rows

module _ (sha256 : Text → ℕ) (parse_ip : Text → Option IpAddr) (show_socket : IpAddr → ℕ → Text)
    (allow_private : Bool) where
  abbrev pub loaded_row : Text → Option NodeRow → Option NodeState
  loaded_row registry none = none
  loaded_row registry (some row) =
      if is_registered_row row && text_eq row.registry_address (to_lowercase registry)
      then some (from_row sha256 parse_ip show_socket allow_private row)
      else none

  -- `Db::load_registry_nodes`, by address.
  unfoldable pub load_registry_nodes : Text → Map NodeRow → Text → Option NodeState
  unfolding from_row
  load_registry_nodes registry rows address = loaded_row registry (get address rows)
