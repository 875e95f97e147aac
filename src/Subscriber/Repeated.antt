-- ===== src/Subscriber/Repeated.antt =====
-- A change of membership is not republished again at once.
use nox_indexer.Prelude.{
  ℕ, ◌-◌, ◌/◌, ◌≤◌, ◌≡◌, refl, inl, inr, ltb, Bool, true, false, Option, none, some, List, [], ◌∷◌,
  ◌++◌, subst, All, arith, Bool-cases,
}
use nox_indexer.Prelude.Text.{Text, text}
use nox_indexer.Prelude.Maps.{has_key, text_eq_refl}
use nox_indexer.Subscriber.Events.{
  IngestEvent, topology_add, topology_remove, TopoDedup, Republished, EventState, is_republishable,
  chain_view_of_topology_event, insert_seen, check, dedup_key, after_dedup, with_key, with_view,
  process_event,
}

inserted-seen :
    (key : Text) (at : ℕ) (seen' : List Text)
    → has_key ((insert_seen key at seen').0).seen key ≡ true
unfolding has_key
inserted-seen key at seen' = elim (Bool-cases (has_key seen' key)) [
  | inl old ↦ rw (old, insert_seen) old
  | inr new ↦ rw (new, insert_seen, text_eq_refl key) refl
]

check-seen :
    (key : Text) (now : ℕ) (dedup : TopoDedup) → has_key ((check key now dedup).0).seen key ≡ true
unfolding check
check-seen key now dedup = elim (Bool-cases (ltb 30 ((now - dedup.last_clear) / 1_000_000_000))) [
  | inl clear ↦ rw (clear, check) (inserted-seen key now [])
  | inr keep ↦ rw (keep, check) (inserted-seen key dedup.last_clear dedup.seen)
]

seen-refused :
    (key : Text) (later : ℕ) (dedup : TopoDedup)
    → has_key dedup.seen key ≡ true
    → (later - dedup.last_clear) / 1_000_000_000 ≤ 30
    → (check key later dedup).1 ≡ false
unfolding check
seen-refused key later dedup seen' soon =
    let keep : ltb 30 ((later - dedup.last_clear) / 1_000_000_000) ≡ false = ground arith in
    rw (keep, check, seen') refl

refused_again :
    (raw : Republished) (state : EventState) (answer : TopoDedup × Bool)
    → answer.1 ≡ false
    → (after_dedup raw state answer).1 ≡ none
refused_again raw state (dedup, true) e = absurd cc
refused_again raw state (dedup, false) e = refl

view_again :
    (key : Text) (view : Option (Option ℕ)) (event : IngestEvent) (node_address : Text) (later : ℕ)
    (state : EventState)
    → dedup_key event ≡ some key
    → (check key later state.topo_dedup).1 ≡ false
    → (with_view view event node_address later state).1 ≡ none
unfolding with_view with_key
view_again key none event node_address later state k e = refl
view_again key (some role) event node_address later state k e = rw k (
    refused_again (record { event = event; node_address = node_address; role = role }) state
      (check key later state.topo_dedup) e)

dedup_kept :
    (raw : Republished) (state : EventState) (answer : TopoDedup × Bool)
    → (after_dedup raw state answer).0.topo_dedup ≡ answer.0
dedup_kept raw state (dedup, true) = refl
dedup_kept raw state (dedup, false) = refl

view_once :
    (key : Text) (view : Option (Option ℕ)) (event : IngestEvent) (node_address : Text) (now : ℕ)
    (state : EventState) {raw : Republished}
    → dedup_key event ≡ some key
    → (with_view view event node_address now state).1 ≡ some raw
    → has_key (with_view view event node_address now state).0.topo_dedup.seen key ≡ true
unfolding with_view with_key
view_once key none event node_address now state k e = absurd cc
view_once key (some role) event node_address now state k e =
    rw
      (
        k,
        dedup_kept (record { event = event; node_address = node_address; role = role }) state
            (check key now state.topo_dedup),
      )
      (check-seen key now state.topo_dedup)

-- An event that reaches the indexer, the node that sent it, and the time.
pub record Sent : Type 0 where
  pub from_node : Text
  pub event : IngestEvent
  pub at : ℕ

-- The state after a sequence of events.
abbrev pub process_all : List Sent → EventState → EventState
process_all [] state = state
process_all (s ∷ rest) state = process_all rest (process_event s.from_node s.event s.at state).0

-- Two additions of one address, as it is written, or two removals of it.
pub data IsSameChange : IngestEvent → IngestEvent → Type 0 where
  both_add :
      (address : Text) (role role' : ℕ) (stake stake' node_id node_id' : Text)
      → IsSameChange
          (topology_add address role stake node_id)
          (topology_add address role' stake' node_id')
  both_remove :
      (address node_id node_id' : Text)
      → IsSameChange (topology_remove address node_id) (topology_remove address node_id')

same_key :
    (event again : IngestEvent)
    → IsSameChange event again
    → (key : Text) × (dedup_key event ≡ some key) × (dedup_key again ≡ some key)
unfolding dedup_key
same_key event again (both_add address role role' stake stake' node_id node_id') =
    (text "topo_add:" ++ address, refl, refl)
same_key event again (both_remove address node_id node_id') =
    (text "topo_remove:" ++ address, refl, refl)

-- The key is among those seen since the clearing at a time.
abbrev IsMarked : Text → ℕ → TopoDedup → Type 0
IsMarked key clear dedup = (has_key dedup.seen key ≡ true) × (dedup.last_clear ≡ clear)

-- At most thirty whole seconds after a time.
abbrev pub IsSoon : ℕ → ℕ → Type 0
IsSoon clear at = (at - clear) / 1_000_000_000 ≤ 30

has_key_cons :
    (key k : Text) (seen' : List Text) → has_key seen' key ≡ true → has_key (k ∷ seen') key ≡ true
unfolding has_key
has_key_cons key k seen' h = ground arith

inserted-IsMarked :
    (key k : Text) (at : ℕ) (seen' : List Text)
    → has_key seen' key ≡ true
    → IsMarked key at (insert_seen k at seen').0
inserted-IsMarked key k at seen' h = elim (Bool-cases (has_key seen' k)) [
  | inl old ↦ rw (old, insert_seen) (h, refl)
  | inr new ↦ rw (new, insert_seen) (has_key_cons key k seen' h, refl)
]

check-IsMarked :
    (key k : Text) (clear at : ℕ) (dedup : TopoDedup)
    → IsMarked key clear dedup
    → IsSoon clear at
    → IsMarked key clear (check k at dedup).0
unfolding check
check-IsMarked key k clear at dedup (h, e) soon =
    let soon' : IsSoon dedup.last_clear at = rw e soon in
    let keep : ltb 30 ((at - dedup.last_clear) / 1_000_000_000) ≡ false = ground arith in
    rw (keep, check)
      (subst (λ c. IsMarked key c (insert_seen k dedup.last_clear dedup.seen).0) e
        (inserted-IsMarked key k dedup.last_clear dedup.seen h))

view-IsMarked :
    (key : Text) (clear at : ℕ) (view : Option (Option ℕ)) (event : IngestEvent) (o : Option Text)
    (node_address : Text) (state : EventState)
    → dedup_key event ≡ o
    → IsMarked key clear state.topo_dedup
    → IsSoon clear at
    → IsMarked key clear (with_view view event node_address at state).0.topo_dedup
unfolding with_view with_key
view-IsMarked key clear at none event o node_address state k h soon = h
view-IsMarked key clear at (some role) event none node_address state k h soon = rw k h
view-IsMarked key clear at (some role) event (some k') node_address state k h soon =
    rw
      (
        k,
        dedup_kept (record { event = event; node_address = node_address; role = role }) state
            (check k' at state.topo_dedup),
      )
      (check-IsMarked key k' clear at state.topo_dedup h soon)

process_event-IsMarked :
    (key : Text) (clear : ℕ) (s : Sent) (state : EventState)
    → IsMarked key clear state.topo_dedup
    → IsSoon clear s.at
    → IsMarked key clear (process_event s.from_node s.event s.at state).0.topo_dedup
unfolding process_event
process_event-IsMarked key clear s state h soon = elim (Bool-cases (is_republishable s.event)) [
  | inr packet ↦ rw (packet, process_event) h
  | inl other ↦
      rw (other, process_event)
        (view-IsMarked key clear s.at (chain_view_of_topology_event state.nodes s.event) s.event
          (dedup_key s.event) s.from_node state refl h soon)
]

process_all-IsMarked :
    (key : Text) (clear : ℕ) (between : List Sent) (state : EventState)
    → IsMarked key clear state.topo_dedup
    → All (λ (s : Sent). IsSoon clear s.at) between
    → IsMarked key clear (process_all between state).topo_dedup
process_all-IsMarked key clear [] state h soon = h
process_all-IsMarked key clear (s ∷ rest) state h (now, soon) =
    process_all-IsMarked key clear rest (process_event s.from_node s.event s.at state).0
      (process_event-IsMarked key clear s state h now) soon

-- A republished event leaves its key.
event_once :
    (key : Text) (node_address : Text) (event : IngestEvent) (now : ℕ) (state : EventState)
    {raw : Republished}
    → dedup_key event ≡ some key
    → (process_event node_address event now state).1 ≡ some raw
    → has_key (process_event node_address event now state).0.topo_dedup.seen key ≡ true
unfolding process_event
event_once key node_address event now state k e = elim (Bool-cases (is_republishable event)) [
  | inr packet ↦ let e' = rw (packet, process_event) at e in absurd cc
  | inl other ↦
      let e' = rw (other, process_event) at e in
      rw (other, process_event)
        (view_once key (chain_view_of_topology_event state.nodes event) event node_address now state
          k e')
]

event_again :
    (key : Text) (node_address : Text) (event : IngestEvent) (later : ℕ) (state : EventState)
    → dedup_key event ≡ some key
    → (check key later state.topo_dedup).1 ≡ false
    → (process_event node_address event later state).1 ≡ none
unfolding process_event
event_again key node_address event later state k e = elim (Bool-cases (is_republishable event)) [
  | inr packet ↦ rw (packet, process_event) refl
  | inl other ↦
      rw (other, process_event)
        (view_again key (chain_view_of_topology_event state.nodes event) event node_address later
          state k e)
]

-- Once the addition of an address, as it is written, is republished, no addition of that address is
-- republished, whatever else it says, whichever node sends it and whatever events come in between, as
-- long as it and they come at most thirty whole seconds after the keys were last cleared; likewise for
-- the removal of an address.
pub process_event-repeated :
    (first_node second_node : Text) (event again : IngestEvent) (now later : ℕ)
    (between : List Sent) (state : EventState) {raw : Republished}
    → IsSameChange event again
    → (process_event first_node event now state).1 ≡ some raw
    → All
        (λ (s : Sent).
          IsSoon (process_event first_node event now state).0.topo_dedup.last_clear s.at)
        between
    → IsSoon (process_event first_node event now state).0.topo_dedup.last_clear later
    → (process_event second_node again later
        (process_all between (process_event first_node event now state).0)).1
      ≡ none
process_event-repeated first_node second_node event again now later between state same e soon last =
    let (key, k, k') = same_key event again same in
    let after = (process_event first_node event now state).0 in
    let clear = after.topo_dedup.last_clear in
    let marked =
      process_all-IsMarked key clear between after
        (event_once key first_node event now state k e, refl) soon in
    let end = process_all between after in
    event_again key second_node again later end k'
      (seen-refused key later end.topo_dedup marked.0 (rw marked.1 last))
