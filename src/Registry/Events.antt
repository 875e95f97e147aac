-- ===== src/Registry/Events.antt =====
-- The registry's events in src/chain/mod.rs and the member set that they build. An address is its
-- number; a `HashSet` is a list without repetition, whose order nothing depends on.
use nox_indexer.Prelude.{
  ℕ, ◌==◌, Bool, true, false, ◌||◌, Option, none, some, List, [], ◌∷◌, if◌then◌else◌, not,
}

abbrev pub Address : Type 0
Address = ℕ

pub data ChainNodeEvent : Type 0 where
  registered : Address → ChainNodeEvent
  profile_changed : Address → ChainNodeEvent
  removed : Address → ChainNodeEvent
  unstaked : Address → ℕ → ChainNodeEvent

-- The event definitions of the contract, in the order in which they are tried.
pub data Filter : Type 0 where
  relayer_registered privileged_relayer_registered relayer_removed relayer_updated : Filter
  ingress_url_updated metadata_url_updated key_rotated role_updated : Filter
  relayer_frozen relayer_unfrozen unstaked_filter : Filter

abbrev pub filters : List Filter
filters =
    relayer_registered ∷ privileged_relayer_registered ∷ relayer_removed ∷ relayer_updated
    ∷ ingress_url_updated ∷ metadata_url_updated ∷ key_rotated ∷ role_updated ∷ relayer_frozen
    ∷ relayer_unfrozen ∷ unstaked_filter ∷ []

-- What a decoded event becomes: its relayer, and the amount that only `Unstaked` carries.
unfoldable pub event_of : Filter → Address → ℕ → ChainNodeEvent
event_of relayer_registered relayer amount = registered relayer
event_of privileged_relayer_registered relayer amount = registered relayer
event_of relayer_removed relayer amount = removed relayer
event_of relayer_updated relayer amount = profile_changed relayer
event_of ingress_url_updated relayer amount = profile_changed relayer
event_of metadata_url_updated relayer amount = profile_changed relayer
event_of key_rotated relayer amount = profile_changed relayer
event_of role_updated relayer amount = profile_changed relayer
event_of relayer_frozen relayer amount = profile_changed relayer
event_of relayer_unfrozen relayer amount = profile_changed relayer
event_of unstaked_filter relayer amount = unstaked relayer amount

-- The ABI decoder is not under the repository: `decode_event` answers with the relayer and the amount
-- of a log that fits an event definition, and `address_of` with the contract that emitted it.
module _ {Log : Type 0} (address_of : Log → Address)
    (decode_event : Filter → Log → Option (Address × ℕ)) where
  unfoldable pub try_decode : List Filter → Log → Option ChainNodeEvent
  unfolding event_of
  try_decode [] log = none
  try_decode (f ∷ fs) log =
      let rest = try_decode fs log in
      elim (decode_event f log) [
        | none ↦ rest
        | some (relayer, amount) ↦ some (event_of f relayer amount)
      ]

  -- `ChainConfig::decode_log`
  unfoldable pub decode_log : Address → Log → Option ChainNodeEvent
  unfolding try_decode
  decode_log registry_address log =
      if not (address_of log == registry_address) then none else try_decode filters log

unfoldable pub contains : List Address → Address → Bool
contains [] a = false
contains (x ∷ xs) a = x == a || contains xs a

-- `set.insert(address)`: the set, and whether the address is new.
unfoldable pub insert : Address → List Address → List Address × Bool
unfolding contains
insert a xs = if contains xs a then (xs, false) else (a ∷ xs, true)

unfoldable pub erase : Address → List Address → List Address
erase a [] = []
erase a (x ∷ xs) = if x == a then erase a xs else x ∷ erase a xs

-- `set.remove(address)`: the set, and whether the address was there.
unfoldable pub remove : Address → List Address → List Address × Bool
unfolding contains erase
remove a xs = (erase a xs, contains xs a)

-- `apply_membership_event`: the set, and whether membership changed.
unfoldable pub apply_membership_event : List Address → ChainNodeEvent → List Address × Bool
unfolding insert remove
apply_membership_event set (registered a) = insert a set
apply_membership_event set (removed a) = remove a set
apply_membership_event set (unstaked a amount) = remove a set
apply_membership_event set (profile_changed a) = (set, false)
