-- ===== src/Subscriber/Dropped.antt =====
-- Why an event of a node is not republished.
use nox_indexer.Prelude.{
  ◌-◌, ◌/◌, ◌⊎◌, ℕ, ◌≡◌, refl, inl, inr, ltb, true, false, Option, none, some, List, ◌++◌, arith,
  Bool-cases,
}
use nox_indexer.Prelude.Text.{Text, text, to_lowercase}
use nox_indexer.Prelude.Maps.{get, has_key}
use nox_indexer.Nodes.Status.{is_deregistered}
use nox_indexer.Nodes.State.{NodeState}
use nox_indexer.Subscriber.Events.{
  IngestEvent, node_started, peer_connected, peer_disconnected, topology_add, topology_remove,
  packet_processed, TopoDedup, EventState, is_republishable, insert_seen, removed_role, added_role,
  chain_view_of_topology_event, check, dedup_key,
}

-- A node that is not in memory, or is deregistered.
abbrev IsGone : Option NodeState → Type 0
IsGone none = Unit
IsGone (some node) = is_deregistered node.status ≡ true

-- Why an event is dropped: it is of a packet, or it is a change of membership of a node that is gone,
-- or one whose key was seen since the keys were last cleared.
abbrev pub IsDropped : IngestEvent → EventState → Type 0
IsDropped (topology_add address role stake node_id) before =
    IsGone (get (to_lowercase address) before.nodes)
    ⊎ (has_key before.topo_dedup.seen (text "topo_add:" ++ address) ≡ true)
IsDropped (topology_remove address node_id) before =
    (get (to_lowercase address) before.nodes ≡ none)
    ⊎ (has_key before.topo_dedup.seen (text "topo_remove:" ++ address) ≡ true)
IsDropped (node_started timestamp node_id) before = ⊥
IsDropped (peer_connected peer_id node_id) before = ⊥
IsDropped (peer_disconnected peer_id node_id) before = ⊥
IsDropped (packet_processed duration_ms node_id) before = Unit

pub packet-IsDropped :
    (event : IngestEvent) (before : EventState)
    → is_republishable event ≡ false
    → IsDropped event before
unfolding is_republishable
packet-IsDropped (node_started timestamp node_id) before h = cc
packet-IsDropped (peer_connected peer_id node_id) before h = cc
packet-IsDropped (peer_disconnected peer_id node_id) before h = cc
packet-IsDropped (topology_add address role stake node_id) before h = cc
packet-IsDropped (topology_remove address node_id) before h = cc
packet-IsDropped (packet_processed duration_ms node_id) before h = tt

not_added-IsGone : (o : Option NodeState) → added_role o ≡ none → IsGone o
not_added-IsGone none h = tt
not_added-IsGone (some node) h = ground arith

not_removed : (o : Option NodeState) → removed_role o ≡ none → o ≡ none
not_removed none h = refl
not_removed (some node) h = cc

pub unknown-IsDropped :
    (event : IngestEvent) (before : EventState)
    → chain_view_of_topology_event before.nodes event ≡ none
    → IsDropped event before
unfolding chain_view_of_topology_event
unknown-IsDropped (node_started timestamp node_id) before h = cc
unknown-IsDropped (peer_connected peer_id node_id) before h = cc
unknown-IsDropped (peer_disconnected peer_id node_id) before h = cc
unknown-IsDropped (packet_processed duration_ms node_id) before h = cc
unknown-IsDropped (topology_add address role stake node_id) before h =
    inl (not_added-IsGone (get (to_lowercase address) before.nodes) h)
unknown-IsDropped (topology_remove address node_id) before h =
    inl (not_removed (get (to_lowercase address) before.nodes) h)

pub refused-IsDropped :
    (event : IngestEvent) (before : EventState) (key : Text)
    → dedup_key event ≡ some key
    → has_key before.topo_dedup.seen key ≡ true
    → IsDropped event before
unfolding dedup_key
refused-IsDropped (node_started timestamp node_id) before key k h = cc
refused-IsDropped (peer_connected peer_id node_id) before key k h = cc
refused-IsDropped (peer_disconnected peer_id node_id) before key k h = cc
refused-IsDropped (packet_processed duration_ms node_id) before key k h = cc
refused-IsDropped (topology_add address role stake node_id) before key k h =
    let same : text "topo_add:" ++ address ≡ key = cc in inr (rw same h)
refused-IsDropped (topology_remove address node_id) before key k h =
    let same : text "topo_remove:" ++ address ≡ key = cc in inr (rw same h)

inserted_refused :
    (key : Text) (at : ℕ) (seen' : List Text)
    → (insert_seen key at seen').1 ≡ false
    → has_key seen' key ≡ true
inserted_refused key at seen' h = ground arith

-- A key that is refused was seen since the last clearing.
pub check_refused :
    (key : Text) (now : ℕ) (dedup : TopoDedup)
    → (check key now dedup).1 ≡ false
    → has_key dedup.seen key ≡ true
unfolding check has_key
check_refused key now dedup h =
    elim (Bool-cases (ltb 30 ((now - dedup.last_clear) / 1_000_000_000))) [
      | inl clear ↦ let h' = rw (clear, check) at h in absurd cc
      | inr keep ↦ inserted_refused key dedup.last_clear dedup.seen (rw (keep, check) at h)
    ]
