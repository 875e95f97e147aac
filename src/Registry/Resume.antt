-- ===== src/Registry/Resume.antt =====
-- The replayed set is the one that the chain's history defines, however the scan was cut up.
use Prim.Native.Nat
use mathlib.Core.List.{append_assoc}
use nox_indexer.Prelude.{
  ℕ, zero, suc, ◌+◌, ◌-◌, ◌≤◌, ◌<◌, ◌≡◌, ◌∙◌, sym, ap, refl, ◌⊎◌, inl, inr, leb, leb→le, Option,
  none, some, List, [], ◌∷◌, ◌++◌, arith, Bool-cases, Option-cases,
}
use nox_indexer.Prelude.Text.{Text}
use nox_indexer.Fetch.Chunked.{Fetched, fetched, gave_up}
use nox_indexer.Registry.Events.{Address, ChainNodeEvent, contains, apply_membership_event}
use nox_indexer.Registry.Members.{SameMembers, apply_logs-SameMembers}
use nox_indexer.Registry.Replay.{
  ReplayProgress, Scan, scanned, failed, apply_logs, scan_loop, scan_membership,
}

fetched_cases :
    {L : Type 0} (f : Fetched L)
    → ((logs : List L) × (end : ℕ) × (f ≡ fetched logs end))
      ⊎ ((error : Text) × (f ≡ gave_up error))
fetched_cases (fetched logs end) = inl (logs, end, refl)
fetched_cases (gave_up error) = inr (error, refl)

module _ {Log : Type 0} (decode_log : Log → Option ChainNodeEvent) (history : ℕ → List Log) where
  -- The logs of `n` blocks from `from` on.
  unfoldable pub logs_of : ℕ → ℕ → List Log
  logs_of from zero = []
  logs_of from (suc n) = history from ++ logs_of (from + 1) n

  -- The members after `n` blocks from `from` on, in the order of the blocks.
  abbrev pub replayed : List Address → ℕ → ℕ → List Address
  replayed members from n = apply_logs decode_log members (logs_of from n)

  apply_logs-append :
      (members : List Address) (xs ys : List Log)
      → apply_logs decode_log members (xs ++ ys)
        ≡ apply_logs decode_log (apply_logs decode_log members xs) ys
  unfolding apply_logs
  apply_logs-append members [] ys = refl
  apply_logs-append members (x ∷ xs) ys = elim (Option-cases (decode_log x)) [
    | inl e ↦ rw (e, apply_logs) (apply_logs-append members xs ys)
    | inr (event, e) ↦
        rw (e, apply_logs) (apply_logs-append (apply_membership_event members event).0 xs ys)
  ]

  logs_of-append :
      (from n m total next : ℕ)
      → next ≡ from + n
      → total ≡ n + m
      → logs_of from total ≡ logs_of from n ++ logs_of next m
  unfolding logs_of
  logs_of-append from zero m total next e t =
      let e' : next ≡ from = omega arith in let t' : total ≡ m = omega arith in rw (e', t')
  logs_of-append from (suc n) m zero next e t = absurd (omega arith)
  logs_of-append from (suc n) m (suc total) next e t =
      ap (λ l. history from ++ l)
        (logs_of-append (from + 1) n m total next (omega arith) (omega arith))
      ∙ sym (append_assoc (history from) (logs_of (from + 1) n) (logs_of next m))

  -- To replay some blocks and then the next ones is to replay them all.
  replayed-replayed :
      (members : List Address) (from n m total next : ℕ)
      → next ≡ from + n
      → total ≡ n + m
      → replayed (replayed members from n) next m ≡ replayed members from total
  replayed-replayed members from n m total next e t = sym (
      ap (apply_logs decode_log members) (logs_of-append from n m total next e t)
      ∙ apply_logs-append members (logs_of from n) (logs_of next m))

  -- The members are those after the blocks from `base` up to the next block.
  pub record IsReplayed (base : ℕ) (initial : List Address) (replay : ReplayProgress) : Type 0 where
    pub begun : base ≤ replay.next_block
    pub members_are : SameMembers replay.members (replayed initial base (replay.next_block - base))

  module _ {E : Type 0} (fetch_logs_chunk : E → ℕ → ℕ → Fetched Log × E) where
    -- Every fetched chunk is the history of a range that begins where it was asked to.
    abbrev pub IsFaithful : Type 0
    IsFaithful =
        (e e' : E) (from to : ℕ) (logs : List Log) (end : ℕ)
        → from ≤ to
        → fetch_logs_chunk e from to ≡ (fetched logs end, e')
        → (from ≤ end) × (end ≤ to) × (logs ≡ logs_of from (end + 1 - from))

    -- What a scan ends with: the members up to `goal` on success, and a consistent part on failure.
    abbrev pub IsScanned : ℕ → List Address → ℕ → ℕ → Option (Scan E) → Type 0
    IsScanned base initial goal target none = ⊥
    IsScanned base initial goal target (some (scanned replay e)) =
        IsReplayed base initial replay × (replay.next_block ≡ goal)
    IsScanned base initial goal target (some (failed error replay e)) =
        IsReplayed base initial replay × (replay.next_block ≤ target)

    module _ (faithful : IsFaithful) (base : ℕ) (initial : List Address) where
      after_chunk :
          (e e' : E) (replay : ReplayProgress) (target : ℕ) (logs : List Log) (end : ℕ)
          → replay.next_block ≤ target
          → IsReplayed base initial replay
          → fetch_logs_chunk e replay.next_block target ≡ (fetched logs end, e')
          → IsReplayed base initial (record replay {
            next_block = end + 1;
            members = apply_logs decode_log replay.members logs;
          })
            × (replay.next_block ≤ end)
            × (end ≤ target)
      after_chunk e e' replay target logs end le v fetched_logs =
          let (low, high, are) = faithful e e' replay.next_block target logs end le fetched_logs in
          (
            record {
              begun = omega arith;
              members_are = λ a.
                  ap (λ l. contains (apply_logs decode_log replay.members l) a) are
                  ∙ apply_logs-SameMembers decode_log replay.members
                      (replayed initial base (replay.next_block - base))
                      (logs_of replay.next_block (end + 1 - replay.next_block)) v.members_are a
                  ∙ ap (λ m. contains m a)
                      (replayed-replayed initial base (replay.next_block - base)
                        (end + 1 - replay.next_block) (end + 1 - base) replay.next_block
                        (omega arith) (omega arith));
            },
            low,
            high,
          )

      scan_loop-IsScanned :
          (fuel : ℕ) (e : E) (replay : ReplayProgress) (goal target : ℕ)
          → target + 1 - replay.next_block < fuel
          → goal ≡ Nat.max replay.next_block (target + 1)
          → IsReplayed base initial replay
          → IsScanned base initial goal target
              (scan_loop decode_log fetch_logs_chunk fuel e replay target)
      unfolding scan_loop
      scan_loop-IsScanned zero e replay goal target h g v = absurd (omega arith)
      scan_loop-IsScanned (suc fuel) e replay goal target h g v =
          elim (Bool-cases (leb replay.next_block target)) [
            | inr over ↦ rw (over, scan_loop) (v, ground arith)
            | inl more ↦
                let le = leb→le replay.next_block target more in
                let answer = fetch_logs_chunk e replay.next_block target in
                elim (fetched_cases answer.0) [
                  | inr (error, ea) ↦ rw (more, ea, scan_loop) (v, le)
                  | inl (logs, end, ea) ↦
                      let (v', low, high) =
                        after_chunk e answer.1 replay target logs end le v
                          (ap (λ (f : Fetched Log). (f, answer.1)) ea) in
                      rw (more, ea, scan_loop)
                        (scan_loop-IsScanned fuel answer.1
                          (record replay {
                            next_block = end + 1;
                            members = apply_logs decode_log replay.members logs;
                          })
                          goal target (omega arith) (omega arith) v')
                ]
          ]

      pub scan_membership-IsScanned :
          (e : E) (replay : ReplayProgress) (target : ℕ)
          → IsReplayed base initial replay
          → IsScanned base initial
              (Nat.max replay.next_block (target + 1))
              target
              (scan_membership decode_log fetch_logs_chunk e replay target)
      unfolding scan_membership
      scan_membership-IsScanned e replay target v =
          scan_loop-IsScanned (suc (target + 1 - replay.next_block)) e replay
            (Nat.max replay.next_block (target + 1)) target (omega arith) refl v
