-- ===== src/Subscriber/Published.antt =====
-- What is republished of the events of nodes.
use nox_indexer.Prelude.{
  ℕ, suc, ◌≤◌, ◌≡◌, refl, inl, inr, ltb, Bool, true, false, Option, none, some, List, [], ◌∷◌, ◌++◌,
  length, arith, Bool-cases, Option-cases,
}
use nox_indexer.Prelude.Text.{Text, to_lowercase}
use nox_indexer.Prelude.Maps.{Map, get}
use nox_indexer.Nodes.Status.{is_deregistered}
use nox_indexer.Nodes.State.{NodeState}
use nox_indexer.Subscriber.Events.{
  IngestEvent, node_started, peer_connected, peer_disconnected, topology_add, topology_remove,
  packet_processed, TopoDedup, Republished, EventState, max_recent_events, is_republishable,
  added_role, chain_view_of_topology_event, check, dedup_key, trimmed, after_dedup, with_key,
  with_view, process_event,
}
use nox_indexer.Subscriber.Dropped.{
  IsDropped, packet-IsDropped, unknown-IsDropped, refused-IsDropped, check_refused,
}

trimmed-bounded : (xs : List Republished) → length (trimmed xs) ≤ max_recent_events
unfolding trimmed
trimmed-bounded [] = omega arith
trimmed-bounded (x ∷ xs) = elim (Bool-cases (ltb max_recent_events (suc (length xs)))) [
  | inl over ↦ rw (over, trimmed) (trimmed-bounded xs)
  | inr fits ↦ rw (fits, trimmed) (ground arith)
]

-- The last of a list.
abbrev IsLast : Republished → List Republished → Type 0
IsLast raw xs = (front : List Republished) × (xs ≡ front ++ (raw ∷ []))

trimmed-IsLast :
    (raw : Republished) (xs : List Republished) → IsLast raw (trimmed (xs ++ (raw ∷ [])))
unfolding trimmed
trimmed-IsLast raw [] = ([], refl)
trimmed-IsLast raw (x ∷ xs) =
    elim (Bool-cases (ltb max_recent_events (suc (length (xs ++ (raw ∷ [])))))) [
      | inl over ↦ rw (over, trimmed) (trimmed-IsLast raw xs)
      | inr fits ↦ rw (fits, trimmed) (x ∷ xs, refl)
    ]

-- A change of membership concerns a node in memory; an addition one that is registered, with the role
-- that the chain gives it.
abbrev IsKnown : IngestEvent → Map NodeState → Option ℕ → Type 0
IsKnown (topology_add address role stake node_id) nodes published_role =
    (node : NodeState) × (get (to_lowercase address) nodes ≡ some node)
    × (is_deregistered node.status ≡ false)
    × (published_role ≡ some node.role)
IsKnown (topology_remove address node_id) nodes published_role =
    (node : NodeState) × (get (to_lowercase address) nodes ≡ some node)
IsKnown (node_started timestamp node_id) nodes published_role = Unit
IsKnown (peer_connected peer_id node_id) nodes published_role = Unit
IsKnown (peer_disconnected peer_id node_id) nodes published_role = Unit
IsKnown (packet_processed duration_ms node_id) nodes published_role = Unit

-- An event other than that of a processed packet.
abbrev IsNoPacket : IngestEvent → Type 0
IsNoPacket (node_started timestamp node_id) = Unit
IsNoPacket (peer_connected peer_id node_id) = Unit
IsNoPacket (peer_disconnected peer_id node_id) = Unit
IsNoPacket (topology_add address role stake node_id) = Unit
IsNoPacket (topology_remove address node_id) = Unit
IsNoPacket (packet_processed duration_ms node_id) = ⊥

republishable-IsNoPacket : (event : IngestEvent) → is_republishable event ≡ true → IsNoPacket event
unfolding is_republishable
republishable-IsNoPacket (node_started timestamp node_id) h = tt
republishable-IsNoPacket (peer_connected peer_id node_id) h = tt
republishable-IsNoPacket (peer_disconnected peer_id node_id) h = tt
republishable-IsNoPacket (topology_add address role stake node_id) h = tt
republishable-IsNoPacket (topology_remove address node_id) h = tt
republishable-IsNoPacket (packet_processed duration_ms node_id) h = cc

-- What an event comes to: nothing is republished, the kept events stay and the event is one to drop,
-- or the event is the last of the kept ones, of which there are at most two hundred.
abbrev pub IsProcessed : IngestEvent → EventState → EventState × Option Republished → Type 0
IsProcessed event before (after, none) =
    (after.nodes ≡ before.nodes)
    × (after.recent_events ≡ before.recent_events)
    × IsDropped event before
IsProcessed event before (after, some raw) =
    (after.nodes ≡ before.nodes)
    × IsLast raw after.recent_events
    × (length after.recent_events ≤ max_recent_events)
    × (raw.event ≡ event)
    × IsNoPacket event
    × IsKnown event before.nodes raw.role

added-IsKnown :
    (address stake node_id : Text) (role : ℕ) (nodes : Map NodeState) (o : Option NodeState)
    (r : Option ℕ)
    → get (to_lowercase address) nodes ≡ o
    → added_role o ≡ some r
    → IsKnown (topology_add address role stake node_id) nodes r
added-IsKnown address stake node_id role nodes none r e h = absurd cc
added-IsKnown address stake node_id role nodes (some node) r e h =
    elim (Bool-cases (is_deregistered node.status)) [
      | inl gone ↦ let h' = rw gone at h in absurd cc
      | inr there ↦ let h' = rw there at h in (node, e, there, cc)
    ]

view-IsKnown :
    (event : IngestEvent) (nodes : Map NodeState) (r : Option ℕ)
    → chain_view_of_topology_event nodes event ≡ some r
    → IsKnown event nodes r
unfolding chain_view_of_topology_event
view-IsKnown (topology_add address role stake node_id) nodes r e =
    added-IsKnown address stake node_id role nodes (get (to_lowercase address) nodes) r refl e
view-IsKnown (topology_remove address node_id) nodes r e =
    elim (Option-cases (get (to_lowercase address) nodes)) [
      | inl nobody ↦ let e' = rw nobody at e in absurd cc
      | inr (node, there) ↦ (node, there)
    ]
view-IsKnown (node_started timestamp node_id) nodes r e = tt
view-IsKnown (peer_connected peer_id node_id) nodes r e = tt
view-IsKnown (peer_disconnected peer_id node_id) nodes r e = tt
view-IsKnown (packet_processed duration_ms node_id) nodes r e = tt

after_dedup-IsProcessed :
    (event : IngestEvent) (node_address : Text) (role : Option ℕ) (state : EventState)
    (answer : TopoDedup × Bool)
    → IsNoPacket event
    → IsKnown event state.nodes role
    → (answer.1 ≡ false → IsDropped event state)
    → IsProcessed event state (
        after_dedup
          (record { event = event; node_address = node_address; role = role })
          state
          answer)
after_dedup-IsProcessed event node_address role state (dedup, false) r k drop =
    (refl, refl, drop refl)
after_dedup-IsProcessed event node_address role state (dedup, true) r k drop =
    let raw : Republished = record { event = event; node_address = node_address; role = role } in
    (
      refl,
      trimmed-IsLast raw state.recent_events,
      trimmed-bounded (state.recent_events ++ (raw ∷ [])),
      refl,
      r,
      k,
    )

with_key-IsProcessed :
    (key : Option Text) (event : IngestEvent) (node_address : Text) (role : Option ℕ) (now : ℕ)
    (state : EventState)
    → dedup_key event ≡ key
    → IsNoPacket event
    → IsKnown event state.nodes role
    → IsProcessed event state (
        with_key key (record { event = event; node_address = node_address; role = role }) now state)
unfolding with_key
with_key-IsProcessed none event node_address role now state e r k =
    after_dedup-IsProcessed event node_address role state (state.topo_dedup, true) r k (λ no. cc)
with_key-IsProcessed (some key) event node_address role now state e r k =
    after_dedup-IsProcessed event node_address role state (check key now state.topo_dedup) r k
      (λ refused.
        refused-IsDropped event state key e (check_refused key now state.topo_dedup refused))

-- Whatever a node sends, the nodes in memory stay. Either the event is republished as the last of at
-- most two hundred kept ones: then it is no event of a packet, a change of membership concerns a node
-- in memory, and an addition a registered one with the chain's role. Or the kept events stay: then it
-- is one of a packet, or a change of membership of a node that is not in memory, an addition of a
-- deregistered one, or a change whose key was seen since the keys were last cleared.
pub process_event-IsProcessed :
    (node_address : Text) (event : IngestEvent) (now : ℕ) (state : EventState)
    → IsProcessed event state (process_event node_address event now state)
unfolding process_event with_view
process_event-IsProcessed node_address event now state =
    elim (Bool-cases (is_republishable event)) [
      | inr packet ↦ rw (packet, process_event) (refl, refl, packet-IsDropped event state packet)
      | inl other ↦ elim (Option-cases (chain_view_of_topology_event state.nodes event)) [
        | inl unknown ↦
            rw (other, process_event, unknown) (refl, refl, unknown-IsDropped event state unknown)
        | inr (role, known) ↦
            rw (other, process_event, known)
              (with_key-IsProcessed (dedup_key event) event node_address role now state refl
                (republishable-IsNoPacket event other) (view-IsKnown event state.nodes role known))
      ]
    ]
