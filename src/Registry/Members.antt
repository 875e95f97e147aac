-- ===== src/Registry/Members.antt =====
-- Member sets by what they contain.
use nox_indexer.Prelude.{
  ◌==◌, ◌≡◌, ◌∙◌, sym, refl, ◌↔◌, inl, inr, false, ◌||◌, Option, List, [], ◌∷◌, if◌then◌else◌,
  arith, Bool-cases, Option-cases,
}
use nox_indexer.Registry.Events.{
  Address, ChainNodeEvent, registered, removed, unstaked, profile_changed, contains, insert, erase,
  remove, apply_membership_event,
}
use nox_indexer.Registry.Replay.{apply_logs}

pub contains-insert :
    (a b : Address) (xs : List Address) → contains (insert a xs).0 b ≡ (a == b || contains xs b)
unfolding insert contains
contains-insert a b xs = elim (Bool-cases (contains xs a)) [
  | inl old ↦ rw (old, insert) (ground arith)
  | inr new ↦ rw (new, insert)
]

pub contains-erase :
    (a b : Address) (xs : List Address)
    → contains (erase a xs) b ≡ (if a == b then false else contains xs b)
unfolding erase contains
contains-erase a b [] = ground arith
contains-erase a b (x ∷ xs) = ground (arith, contains-erase a b xs)

-- The same members, in whatever order.
abbrev pub SameMembers : List Address → List Address → Type 0
SameMembers xs ys = (a : Address) → contains xs a ≡ contains ys a

pub apply_membership_event-SameMembers :
    (xs ys : List Address) (event : ChainNodeEvent)
    → SameMembers xs ys
    → SameMembers (apply_membership_event xs event).0 (apply_membership_event ys event).0
unfolding apply_membership_event
apply_membership_event-SameMembers xs ys (registered a) h b =
    contains-insert a b xs ∙ rw (h b) (sym (contains-insert a b ys))
apply_membership_event-SameMembers xs ys (removed a) h b =
    contains-erase a b xs ∙ rw (h b) (sym (contains-erase a b ys))
apply_membership_event-SameMembers xs ys (unstaked a amount) h b =
    contains-erase a b xs ∙ rw (h b) (sym (contains-erase a b ys))
apply_membership_event-SameMembers xs ys (profile_changed a) h b = h b

pub apply_logs-SameMembers :
    {Log : Type 0} (decode_log : Log → Option ChainNodeEvent) (xs ys : List Address)
    (logs : List Log)
    → SameMembers xs ys
    → SameMembers (apply_logs decode_log xs logs) (apply_logs decode_log ys logs)
unfolding apply_logs
apply_logs-SameMembers decode_log xs ys [] h = h
apply_logs-SameMembers decode_log xs ys (log ∷ logs) h = elim (Option-cases (decode_log log)) [
  | inl e ↦ rw (e, apply_logs) (apply_logs-SameMembers decode_log xs ys logs h)
  | inr (event, e) ↦
      rw (e, apply_logs)
        (apply_logs-SameMembers decode_log (apply_membership_event xs event).0
          (apply_membership_event ys event).0 logs
          (apply_membership_event-SameMembers xs ys event h))
]

insert_unchanged :
    (a : Address) (xs : List Address) → ((insert a xs).1 ≡ false) ↔ SameMembers (insert a xs).0 xs
unfolding insert contains
insert_unchanged a xs = elim (Bool-cases (contains xs a)) [
  | inl old ↦ rw (old, insert) (λ e b. refl, λ h. refl)
  | inr new ↦ rw (new, insert) (λ e b. cc, λ h. ground (arith, h a))
]

remove_unchanged :
    (a : Address) (xs : List Address) → (contains xs a ≡ false) ↔ SameMembers (erase a xs) xs
remove_unchanged a xs =
    (λ e b. contains-erase a b xs ∙ ground arith, λ h. ground (arith, h a, contains-erase a a xs))

-- An event is reported as a change exactly when it changes what the set contains.
pub apply_membership_event_changed :
    (xs : List Address) (event : ChainNodeEvent)
    → ((apply_membership_event xs event).1 ≡ false)
      ↔ SameMembers (apply_membership_event xs event).0 xs
unfolding apply_membership_event insert remove
apply_membership_event_changed xs (registered a) = insert_unchanged a xs
apply_membership_event_changed xs (removed a) = remove_unchanged a xs
apply_membership_event_changed xs (unstaked a amount) = remove_unchanged a xs
apply_membership_event_changed xs (profile_changed a) = (λ e b. refl, λ h. refl)
