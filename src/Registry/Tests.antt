-- ===== src/Registry/Tests.antt =====
-- The replay of a short history.
use mathlib.Core.List.{Permᴰ}
use nox_indexer.Prelude.{
  length, sym, ◌==◌, ◌↔◌, ℕ, zero, suc, ◌+◌, ◌-◌, ◌≡◌, refl, false, Option, none, some, List, [],
  ◌∷◌, ◌++◌, arith,
}
use nox_indexer.Prelude.Text.{Text, text}
use nox_indexer.Prelude.Results.{ok}
use nox_indexer.Fetch.Chunked.{Fetched, fetched}
use nox_indexer.Registry.Events.{
  Address, ChainNodeEvent, registered, removed, contains, insert, erase, remove,
  apply_membership_event,
}
use nox_indexer.Registry.Replay.{
  full, resume, start, apply_logs, scan_loop, ReplayProgress, scanned, plan_sync, scan_membership,
}
use nox_indexer.Registry.Members.{SameMembers}
use nox_indexer.Registry.Fingerprint.{Bits, validate_pinned_membership}
use nox_indexer.Registry.Pinned.{
  IsNew, xor_of_hashes, validate_pinned_membership_iff, validate_pinned_membership-Perm,
}
use nox_indexer.Registry.Progress.{collect_members, initial_members, new_progress}
use nox_indexer.Registry.Resume.{logs_of, IsFaithful}
use nox_indexer.Registry.Checkpoint.{resume_agrees_with_full, IsStored}

-- A log is the event itself. Block 1 registers a node, block 3 removes it.
abbrev decode : ChainNodeEvent → Option ChainNodeEvent
decode event = some event

abbrev history : ℕ → List ChainNodeEvent
history zero = []
history (suc zero) = registered 5 ∷ []
history (suc (suc zero)) = []
history (suc (suc (suc zero))) = removed 5 ∷ registered 6 ∷ []
history (suc (suc (suc (suc n)))) = []

-- One block at a time; the state counts the fetches.
abbrev fetch_block : ℕ → ℕ → ℕ → Fetched ChainNodeEvent × ℕ
fetch_block e from to = (fetched (history from ++ []) from, suc e)

fetch_block-IsFaithful : IsFaithful decode history fetch_block
unfolding logs_of
fetch_block-IsFaithful e e' from to logs end le h =
    let same : from ≡ end = cc in
    let are : history from ++ [] ≡ logs = cc in
    let one : end + 1 - from ≡ suc zero = omega (arith, same) in
    (omega (arith, same), omega (arith, same), rw one (sym are))

abbrev beginning : ReplayProgress
beginning = record { chain_id = 1; plan = full 0; next_block = 0; members = [] }

abbrev parse_five : Text → Option Address
parse_five t = some 5

abbrev stored_rows : List Text
stored_rows = text "0x5" ∷ []

abbrev resumed : ReplayProgress
resumed = record { chain_id = 1; plan = resume 2; next_block = 2; members = 5 ∷ [] }

abbrev resumed_end : ReplayProgress
resumed_end = record { chain_id = 1; plan = resume 2; next_block = 5; members = 6 ∷ [] }

abbrev full_end : ReplayProgress
full_end = record { chain_id = 1; plan = full 0; next_block = 5; members = 6 ∷ [] }

stored_rows-IsStored : IsStored decode history parse_five 0 1 stored_rows
unfolding collect_members insert contains logs_of apply_logs apply_membership_event
stored_rows-IsStored a = refl

resumed_begins : new_progress parse_five (ok (some 1)) (ok stored_rows) 1 0 false ≡ ok resumed
unfolding new_progress initial_members collect_members insert plan_sync start contains
resumed_begins = refl

full_begins : new_progress parse_five (ok none) (ok stored_rows) 1 0 false ≡ ok beginning
unfolding new_progress initial_members plan_sync start
full_begins = refl

resumed_ends : scan_membership decode fetch_block 0 resumed 4 ≡ some (scanned resumed_end 3)
unfolding scan_membership scan_loop apply_logs apply_membership_event insert remove erase contains
resumed_ends = refl

full_ends : scan_membership decode fetch_block 0 beginning 4 ≡ some (scanned full_end 5)
unfolding scan_membership scan_loop apply_logs apply_membership_event insert remove erase contains
full_ends = refl

resume_agrees_with_full_example : SameMembers (6 ∷ []) (6 ∷ [])
resume_agrees_with_full_example =
    resume_agrees_with_full decode history parse_five fetch_block fetch_block-IsFaithful 1
      stored_rows 1 0 4 false 0 0 {r₁ = resumed} {r₂ = beginning} {s₁ = resumed_end} {s₂ = full_end}
      {e₁' = 3} {e₂' = 5} stored_rows-IsStored resumed_begins full_begins resumed_ends full_ends
      refl

-- A hash whose first bit says whether the address is 5.
abbrev hash : Address → Bits
hash a = (a == 5) ∷ []

abbrev five_six : List Address
five_six = 5 ∷ 6 ∷ []

validate_pinned_membership_iff_example :
    (validate_pinned_membership hash five_six 2 (xor_of_hashes hash five_six) ≡ none) ↔ (
      IsNew [] five_six
      × (2 ≡ length five_six)
      × (xor_of_hashes hash five_six ≡ xor_of_hashes hash five_six))
validate_pinned_membership_iff_example =
    validate_pinned_membership_iff hash five_six 2 (xor_of_hashes hash five_six)

five_six_passes : validate_pinned_membership hash five_six 2 (xor_of_hashes hash five_six) ≡ none
unfolding contains
five_six_passes =
    (validate_pinned_membership_iff hash five_six 2 (xor_of_hashes hash five_six)).1
      ((refl, (refl, tt)), refl, refl)

validate_pinned_membership-Perm_example :
    validate_pinned_membership hash (6 ∷ 5 ∷ []) 2 (xor_of_hashes hash five_six) ≡ none
validate_pinned_membership-Perm_example =
    validate_pinned_membership-Perm hash 2 (xor_of_hashes hash five_six) {xs = five_six}
      {ys = 6 ∷ 5 ∷ []} ∣ Permᴰ.swap refl refl ∣₁ five_six_passes
