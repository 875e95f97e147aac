-- ===== src/Discovery/Synced.antt =====
-- A synchronisation ends, and what it serves is the chain's history.
use nox_indexer.Prelude.{
  ℕ, ◌+◌, ◌-◌, ◌==◌, ◌≡◌, ◌⊎◌, inl, inr, refl, sym, ap, subst, ◌∙◌, Bool, true, false, not, Option,
  none, some, List, [], if◌then◌else◌, Bool-cases,
}
use nox_indexer.Prelude.Text.{Text}
use nox_indexer.Prelude.Results.{Result, ok, err}
use nox_indexer.Fetch.Chunked.{Fetched}
use nox_indexer.Registry.Events.{Address, ChainNodeEvent}
use nox_indexer.Registry.Members.{SameMembers}
use nox_indexer.Registry.Fingerprint.{Bits, Disagreement}
use nox_indexer.Registry.Replay.{SyncPlan, ReplayProgress, is_resume}
use nox_indexer.Registry.Resume.{replayed, IsReplayed, IsFaithful}
use nox_indexer.Registry.Checkpoint.{IsStored}
use nox_indexer.Discovery.Initial.{
  Checked, checked, unchecked, Synced, agreed, rpc, mismatch, verify_rounds, progress_for,
  after_verdict, sync_round, sync_rounds, verify_attempts,
}
use nox_indexer.Discovery.Began.{ok_same, not_resumed, begun_progress}
use nox_indexer.Discovery.Checked.{Told, IsChecked, verify_rounds-IsChecked}

module _ {E : Type 0} {Log : Type 0} (decode_log : Log → Option ChainNodeEvent)
    (history : ℕ → List Log) (fetch_logs_chunk : E → ℕ → ℕ → Fetched Log × E)
    (safe_head : E → Result ℕ × E) (keccak256 : Address → Bits)
    (membership_at : E → ℕ → Result (ℕ × Bits) × E) (cancelled : E → Bool)
    (faithful : IsFaithful decode_log history fetch_logs_chunk) (from_block : ℕ) where
  -- The progress kept, if there is one, is that of the chain's history.
  abbrev pub IsKept : Option ReplayProgress → Type 0
  IsKept none = Unit
  IsKept (some replay) = IsReplayed decode_log history from_block [] replay

  module _ (parse : Text → Option Address) (checkpoint : Result (Option ℕ))
      (stored : Result (List Text)) (chain_id : ℕ) (accept_unverified : Bool) where
    -- What a synchronisation ends with. The members to serve are those after every block up to the
    -- target. They are verified, and the registry's count and fingerprint there agree with them, or
    -- they are unverified, and the registry there disagrees with a full replay, which is accepted. A
    -- mismatch is that of a full replay that is not accepted.
    abbrev pub IsSynced : Option (Synced E) → Type 0
    IsSynced none = ⊥
    IsSynced (some (agreed target verdict replay e)) =
        IsReplayed decode_log history from_block [] replay
        × SameMembers replay.members
            (replayed decode_log history [] from_block (target + 1 - from_block))
        × (((verdict ≡ true)
              × Told decode_log history fetch_logs_chunk safe_head keccak256 membership_at cancelled
                  faithful from_block replay.members target none)
            ⊎ ((verdict ≡ false)
                × (accept_unverified ≡ true)
                × (is_resume replay.plan ≡ false)
                × ((reason : Disagreement) × Told decode_log history fetch_logs_chunk safe_head
                      keccak256 membership_at cancelled faithful from_block replay.members target
                      (some reason))))
    IsSynced (some (rpc error progress e)) = IsKept progress
    IsSynced (some (mismatch reason replay e)) =
        (accept_unverified ≡ false)
        × (is_resume replay.plan ≡ false)
        × ((target : ℕ) × Told decode_log history fetch_logs_chunk safe_head keccak256 membership_at
              cancelled faithful from_block replay.members target (some reason))

    abbrev verdict_of : (E → Option (Synced E)) → Option (Checked E) → Option (Synced E)
    verdict_of =
        after_verdict decode_log fetch_logs_chunk safe_head keccak256 membership_at cancelled parse
          checkpoint stored chain_id from_block accept_unverified

    up_to :
        (target : ℕ) (replay : ReplayProgress)
        → IsReplayed decode_log history from_block [] replay
        → replay.next_block ≡ target + 1
        → SameMembers replay.members
            (replayed decode_log history [] from_block (target + 1 - from_block))
    up_to target replay v n = rw (← n) (v.members_are)

    disagreed :
        (again : E → Option (Synced E)) (target : ℕ) (reason : Disagreement)
        (replay : ReplayProgress) (e : E) (resumed accepted : Bool)
        → is_resume replay.plan ≡ resumed
        → accept_unverified ≡ accepted
        → (resumed ≡ true → IsSynced (again e))
        → IsReplayed decode_log history from_block [] replay
        → SameMembers replay.members
            (replayed decode_log history [] from_block (target + 1 - from_block))
        → Told decode_log history fetch_logs_chunk safe_head keccak256 membership_at cancelled
            faithful from_block replay.members target
            (some reason)
        → IsSynced (
            if resumed
            then again e
            else if not accepted
            then some (mismatch reason replay e)
            else some (agreed target false replay e))
    disagreed again target reason replay e true accepted p q h v s t = h refl
    disagreed again target reason replay e false false p q h v s t = (q, p, (target, t))
    disagreed again target reason replay e false true p q h v s t =
        (v, s, inr (refl, q, p, (reason, t)))

    after_verdict-IsSynced :
        (plan : SyncPlan) (again : E → Option (Synced E)) (r : Option (Checked E))
        → (is_resume plan ≡ true → (e : E) → IsSynced (again e))
        → IsChecked decode_log history fetch_logs_chunk safe_head keccak256 membership_at cancelled
            faithful from_block plan r
        → IsSynced (verdict_of again r)
    unfolding after_verdict
    after_verdict-IsSynced plan again none h c = c
    after_verdict-IsSynced plan again (some (unchecked error replay e)) h c = c
    after_verdict-IsSynced plan again (some (checked target none replay e)) h (v, n, p, t) =
        (v, up_to target replay v n, inl (refl, t))
    after_verdict-IsSynced plan again (some (checked target (some reason) replay e)) h
          (v, n, p, t) =
        disagreed again target reason replay e (is_resume replay.plan) accept_unverified refl refl
          (λ resumed. h (ap is_resume (sym p) ∙ resumed) e) v (up_to target replay v n) t

    -- What the database holds: the rows are those of the members at the checkpoint.
    abbrev pub IsStoredRight : Type 0
    IsStoredRight =
        (last : ℕ) (rows : List Text)
        → checkpoint ≡ ok (some last)
        → stored ≡ ok rows
        → IsStored decode_log history parse from_block last rows

    abbrev next_progress : Bool → Option ReplayProgress → Result ReplayProgress
    next_progress =
        progress_for decode_log fetch_logs_chunk safe_head keccak256 membership_at cancelled parse
          checkpoint stored chain_id from_block accept_unverified

    next_progress-IsReplayed :
        (force_full : Bool) (progress : Option ReplayProgress) (replay : ReplayProgress)
        → IsStoredRight
        → IsKept progress
        → next_progress force_full progress ≡ ok replay
        → IsReplayed decode_log history from_block [] replay
    next_progress-IsReplayed force_full none replay right v e =
        begun_progress decode_log history parse checkpoint stored chain_id from_block force_full
          replay right e
    next_progress-IsReplayed force_full (some old) replay right v e =
        elim (Bool-cases (old.chain_id == chain_id)) [
          | inl same ↦
              let e' = rw same at e in
              subst (IsReplayed decode_log history from_block []) (ok_same e') v
          | inr other ↦
              let e' = rw other at e in
              begun_progress decode_log history parse checkpoint stored chain_id from_block
                force_full replay right e'
        ]

    abbrev round :
        (E → Option (Synced E))
        → Result ReplayProgress
        → Option ReplayProgress
        → E
        → Option (Synced E)
    round =
        sync_round decode_log fetch_logs_chunk safe_head keccak256 membership_at cancelled parse
          checkpoint stored chain_id from_block accept_unverified

    round-IsSynced :
        (again : E → Option (Synced E)) (r : Result ReplayProgress) (before : Option ReplayProgress)
        (e : E)
        → IsKept before
        → ((replay : ReplayProgress)
            → r ≡ ok replay
            → IsReplayed decode_log history from_block [] replay)
        → ((replay : ReplayProgress)
            → r ≡ ok replay
            → is_resume replay.plan ≡ true
            → (e' : E) → IsSynced (again e'))
        → IsSynced (round again r before e)
    unfolding sync_round
    round-IsSynced again (err error) before e k v h = k
    round-IsSynced again (ok replay) before e k v h =
        after_verdict-IsSynced replay.plan again
          (verify_rounds decode_log fetch_logs_chunk safe_head keccak256 membership_at cancelled
            (verify_attempts - 1) 1 e replay)
          (h replay refl)
          (verify_rounds-IsChecked decode_log history fetch_logs_chunk safe_head keccak256
            membership_at cancelled faithful from_block (verify_attempts - 1) 1 replay.plan e replay
            refl (v replay refl))

    -- A synchronisation always ends, if the fetched chunks are the chain's history, the stored rows
    -- are those of the checkpoint and the progress kept is that of the history. If it serves
    -- members, they are those after every block up to the target. Either they are marked verified,
    -- and the registry's count and fingerprint there agree with them, or they are marked unverified,
    -- and the registry there disagrees with them, they are those of a full replay and a disagreement
    -- is accepted. A mismatch is a disagreement with a full replay that is not accepted, and an error
    -- keeps consistent progress.
    pub sync_rounds-IsSynced :
        (force_full : Bool) (progress : Option ReplayProgress) (e : E)
        → IsStoredRight
        → IsKept progress
        → IsSynced (
            sync_rounds decode_log fetch_logs_chunk safe_head keccak256 membership_at cancelled
              parse checkpoint stored chain_id from_block accept_unverified force_full progress e)
    unfolding sync_rounds
    sync_rounds-IsSynced force_full progress e right k =
        round-IsSynced (λ e'. round (λ e''. none) (next_progress true none) none e')
          (next_progress force_full progress) progress e k
          (λ replay g. next_progress-IsReplayed force_full progress replay right k g)
          (λ replay g resumed e'.
            round-IsSynced (λ e''. none) (next_progress true none) none e' tt
              (λ replay' g'. next_progress-IsReplayed true none replay' right tt g')
              (λ replay' g' resumed'.
                absurd
                  (not_resumed parse checkpoint stored chain_id from_block replay' g' resumed')))
