-- ===== src/Discovery/Live.antt =====
-- The live events of src/chain/discovery.rs and the status changes of src/node/subscriber.rs. An
-- address of the chain has its text from `show_address`. What the chain and the database answer is an
-- argument: a profile after its retries, and the database's refusal if there is one. A step runs
-- without another task between its reads and its writes, so that the second look of
-- `apply_status_change` at the status, after the statement, is left out.
use nox_indexer.Prelude.{ℕ, Bool, true, false, ◌&&◌, not, Option, none, some, if◌then◌else◌}
use nox_indexer.Prelude.Text.{Text}
use nox_indexer.Prelude.Results.{Result, ok, err}
use nox_indexer.Prelude.Maps.{get, put, remove, modify}
use nox_indexer.Registry.Events.{
  Address, ChainNodeEvent, registered, profile_changed, removed, unstaked,
}
use nox_indexer.Nodes.Status.{NodeStatus, online, offline, is_deregistered, is_same}
use nox_indexer.Nodes.Targets.{IpAddr}
use nox_indexer.Nodes.State.{OnChainNode, NodeState, from_chain_info}
use nox_indexer.Discovery.State.{
  AppState, on_nodes, upsert_node, update_node_status, deregister_node,
}

abbrev pub or_zero : Option ℕ → ℕ
or_zero none = 0
or_zero (some n) = n

-- The status that a node keeps, unless it was deregistered.
abbrev pub kept_status : Option NodeStatus → NodeStatus → NodeStatus
kept_status none status = status
kept_status (some existing) status = if is_deregistered existing then status else existing

abbrev pub status_of : Option NodeState → Option NodeStatus
status_of none = none
status_of (some node) = some node.status

-- What an uptime check reports.
abbrev pub probed_status : Bool → NodeStatus
probed_status true = online
probed_status false = offline

abbrev pub needs_update : Option NodeState → NodeStatus → Bool
needs_update none new_status = false
needs_update (some node) new_status =
    not (is_deregistered node.status) && not (is_same node.status new_status)

unfoldable pub status_written : Text → NodeStatus → Option Text → AppState → AppState × Bool
unfolding update_node_status
status_written address new_status (some error) state = (state, false)
status_written address new_status none state = (
  record state {
    db = on_nodes (update_node_status address new_status) state.db;
    nodes = modify address (λ node. record node { status = new_status }) state.nodes;
  },
  true,
)

-- `apply_status_change` of src/node/subscriber.rs, and whether it changed the status.
unfoldable pub apply_status_change : Text → Bool → Option Text → AppState → AppState × Bool
unfolding status_written
apply_status_change address reachable refused state =
    if needs_update (get address state.nodes) (probed_status reachable)
    then status_written address (probed_status reachable) refused state
    else (state, false)

module _ (show_address : Address → Text) where
  unfoldable pub remove_chain_node : Address → Option Text → AppState → AppState
  unfolding deregister_node
  remove_chain_node address (some error) state = state
  remove_chain_node address none state = record state {
    db = on_nodes (deregister_node (show_address address)) state.db;
    nodes = remove (show_address address) state.nodes;
    metrics = remove (show_address address) state.metrics;
    pow_difficulties = remove (show_address address) state.pow_difficulties;
  }

  module _ (sha256 : Text → ℕ) (parse_ip : Text → Option IpAddr) (show_socket : IpAddr → ℕ → Text)
      (allow_private : Bool) (registry_hex : Text) where
    abbrev pub node_from : ℕ → OnChainNode → NodeState
    node_from chain_id info =
        from_chain_info sha256 parse_ip show_socket allow_private info chain_id registry_hex

    -- The node with the status that it has in memory.
    abbrev pub refreshed : OnChainNode → AppState → NodeState
    refreshed info state =
        let node = node_from (or_zero state.sync.chain_id) info in
        record node { status = kept_status (status_of (get node.address state.nodes)) node.status }

    abbrev pub stored_node : NodeState → AppState → AppState
    stored_node node state = record state {
      db = on_nodes (upsert_node node) state.db;
      nodes = put node.address node state.nodes;
    }

    -- `refresh_chain_node`, whose profile is `info`.
    unfoldable pub refresh_chain_node :
        Result (Option OnChainNode) → Option Text → AppState → AppState
    unfolding upsert_node from_chain_info
    refresh_chain_node (err error) refused state = state
    refresh_chain_node (ok none) refused state = state
    refresh_chain_node (ok (some info)) (some error) state = state
    refresh_chain_node (ok (some info)) none state = stored_node (refreshed info state) state

    abbrev pub wake : AppState → AppState
    wake state = record state { probe_now = true }

    -- `process_chain_event`; it always reports a change.
    unfoldable pub process_chain_event :
        ChainNodeEvent → Result (Option OnChainNode) → Option Text → AppState → AppState
    unfolding refresh_chain_node remove_chain_node
    process_chain_event (registered address) info refused state =
        wake (refresh_chain_node info refused state)
    process_chain_event (profile_changed address) info refused state =
        refresh_chain_node info refused state
    process_chain_event (removed address) info refused state =
        remove_chain_node address refused state
    process_chain_event (unstaked address amount) info refused state =
        remove_chain_node address refused state
