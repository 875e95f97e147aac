-- ===== src/Subscriber/Events.antt =====
-- `process_event` of src/node/subscriber.rs with `IngestEvent` of src/node/events.rs and `TopoDedup` of
-- src/state.rs. An event that is republished is kept as a value rather than as JSON, and what is
-- broadcast is a result. An `Instant` is its number of nanoseconds.
use nox_indexer.Prelude.{
  ℕ, ◌-◌, ◌/◌, ltb, Bool, true, false, Option, none, some, List, [], ◌∷◌, ◌++◌, length,
  if◌then◌else◌,
}
use nox_indexer.Prelude.Text.{Text, text, to_lowercase}
use nox_indexer.Prelude.Maps.{Map, get, has_key}
use nox_indexer.Nodes.Status.{is_deregistered}
use nox_indexer.Nodes.State.{NodeState}

pub data IngestEvent : Type 0 where
  node_started : ℕ → Text → IngestEvent
  peer_connected : Text → Text → IngestEvent
  peer_disconnected : Text → Text → IngestEvent
  -- The address, the role, the stake and the node.
  topology_add : Text → ℕ → Text → Text → IngestEvent
  topology_remove : Text → Text → IngestEvent
  packet_processed : ℕ → Text → IngestEvent

pub record TopoDedup : Type 0 where
  pub seen : List Text
  pub last_clear : ℕ

-- An event as it is republished: with the node it came from, and the role that replaces its own.
pub record Republished : Type 0 where
  pub event : IngestEvent
  pub node_address : Text
  pub role : Option ℕ

-- The part of `AppState` that an event reads and writes.
pub record EventState : Type 0 where
  pub nodes : Map NodeState
  pub topo_dedup : TopoDedup
  pub recent_events : List Republished

-- `MAX_RECENT_EVENTS`
abbrev pub max_recent_events : ℕ
max_recent_events = 200

unfoldable pub is_republishable : IngestEvent → Bool
is_republishable (node_started timestamp node_id) = true
is_republishable (peer_connected peer_id node_id) = true
is_republishable (peer_disconnected peer_id node_id) = true
is_republishable (topology_add address role stake node_id) = true
is_republishable (topology_remove address node_id) = true
is_republishable (packet_processed duration_ms node_id) = false

-- The role to publish for an addition of a node that is still registered.
abbrev pub added_role : Option NodeState → Option (Option ℕ)
added_role none = none
added_role (some node) = if is_deregistered node.status then none else some (some node.role)

abbrev pub removed_role : Option NodeState → Option (Option ℕ)
removed_role none = none
removed_role (some node) = some none

unfoldable pub chain_view_of_topology_event : Map NodeState → IngestEvent → Option (Option ℕ)
unfolding get to_lowercase
chain_view_of_topology_event nodes (topology_add address role stake node_id) =
    added_role (get (to_lowercase address) nodes)
chain_view_of_topology_event nodes (topology_remove address node_id) =
    removed_role (get (to_lowercase address) nodes)
chain_view_of_topology_event nodes (node_started timestamp node_id) = some none
chain_view_of_topology_event nodes (peer_connected peer_id node_id) = some none
chain_view_of_topology_event nodes (peer_disconnected peer_id node_id) = some none
chain_view_of_topology_event nodes (packet_processed duration_ms node_id) = some none

abbrev pub insert_seen : Text → ℕ → List Text → TopoDedup × Bool
insert_seen key at seen' =
    if has_key seen' key
    then (record { seen = seen'; last_clear = at }, false)
    else (record { seen = key ∷ seen'; last_clear = at }, true)

-- `TopoDedup::check` at the time `now`: whether the key is new since the last clearing, which is at
-- most thirty seconds ago.
unfoldable pub check : Text → ℕ → TopoDedup → TopoDedup × Bool
unfolding has_key
check key now dedup =
    if ltb 30 ((now - dedup.last_clear) / 1_000_000_000)
    then insert_seen key now []
    else insert_seen key dedup.last_clear dedup.seen

unfoldable pub dedup_key : IngestEvent → Option Text
dedup_key (topology_add address role stake node_id) = some (text "topo_add:" ++ address)
dedup_key (topology_remove address node_id) = some (text "topo_remove:" ++ address)
dedup_key (node_started timestamp node_id) = none
dedup_key (peer_connected peer_id node_id) = none
dedup_key (peer_disconnected peer_id node_id) = none
dedup_key (packet_processed duration_ms node_id) = none

-- `while buffer.len() > MAX_RECENT_EVENTS { buffer.pop_front() }`
unfoldable pub trimmed : List Republished → List Republished
trimmed [] = []
trimmed (x ∷ xs) =
    let rest = trimmed xs in if ltb max_recent_events (length (x ∷ xs)) then rest else x ∷ xs

abbrev pub published : Republished → EventState → EventState × Option Republished
published raw state =
    (record state { recent_events = trimmed (state.recent_events ++ (raw ∷ [])) }, some raw)

abbrev pub after_dedup :
    Republished → EventState → TopoDedup × Bool → EventState × Option Republished
after_dedup raw state (dedup, false) = (record state { topo_dedup = dedup }, none)
after_dedup raw state (dedup, true) = published raw (record state { topo_dedup = dedup })

unfoldable pub with_key :
    Option Text → Republished → ℕ → EventState → EventState × Option Republished
unfolding check trimmed
with_key none raw now state = published raw state
with_key (some key) raw now state = after_dedup raw state (check key now state.topo_dedup)

unfoldable pub with_view :
    Option (Option ℕ) → IngestEvent → Text → ℕ → EventState → EventState × Option Republished
unfolding with_key dedup_key
with_view none event node_address now state = (state, none)
with_view (some role) event node_address now state =
    with_key (dedup_key event) (record { event = event; node_address = node_address; role = role })
      now state

-- The state afterwards, and what is broadcast.
unfoldable pub process_event : Text → IngestEvent → ℕ → EventState → EventState × Option Republished
unfolding is_republishable with_view chain_view_of_topology_event
process_event node_address event now state =
    if is_republishable event
    then with_view (chain_view_of_topology_event state.nodes event) event node_address now state
    else (state, none)
