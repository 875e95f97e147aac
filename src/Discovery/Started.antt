-- ===== src/Discovery/Started.antt =====
-- When members are served unverified, and when an attempt ends in a mismatch.
use nox_indexer.Prelude.{
  ℕ, suc, ◌+◌, ◌-◌, ◌≤◌, ◌<◌, ◌≡◌, ◌⊎◌, Bool, true, false, Option, none, some, List, [], ◌∷◌,
}
use nox_indexer.Prelude.Text.{Text}
use nox_indexer.Prelude.Results.{Result}
use nox_indexer.Fetch.Chunked.{Fetched}
use nox_indexer.Registry.Events.{Address, ChainNodeEvent}
use nox_indexer.Registry.Members.{SameMembers}
use nox_indexer.Registry.Fingerprint.{Bits, Disagreement}
use nox_indexer.Registry.Replay.{ReplayProgress, is_resume}
use nox_indexer.Registry.Resume.{replayed, IsFaithful}
use nox_indexer.Discovery.State.{AppState}
use nox_indexer.Discovery.Initial.{Synced, sync_rounds}
use nox_indexer.Discovery.Checked.{Told}
use nox_indexer.Discovery.Synced.{IsKept, IsStoredRight}
use nox_indexer.Discovery.Start.{
  Outcome, live_from, rpc_failed, mismatched, Supervisor, begin_supervisor,
  full_replay_mismatch_tolerance, initial_chain_sync, supervise,
}

module _ {E : Type 0} {Log : Type 0} (decode_log : Log → Option ChainNodeEvent)
    (history : ℕ → List Log) (fetch_logs_chunk : E → ℕ → ℕ → Fetched Log × E)
    (safe_head : E → Result ℕ × E) (keccak256 : Address → Bits)
    (membership_at : E → ℕ → Result (ℕ × Bits) × E) (cancelled : E → Bool)
    (faithful : IsFaithful decode_log history fetch_logs_chunk) (from_block : ℕ)
    (parse : Text → Option Address) (checkpoint : AppState → Result (Option ℕ))
    (stored : AppState → Result (List Text))
    (reconcile : List Address → ℕ → Bool → AppState → AppState × Option Text) where
  -- The rounds of a synchronisation over what the database answers.
  abbrev pub rounds : ℕ → Bool → Bool → Option ReplayProgress → AppState → E → Option (Synced E)
  rounds chain_id force_full accept progress state e =
      sync_rounds decode_log fetch_logs_chunk safe_head keccak256 membership_at cancelled parse
        (checkpoint state) (stored state) chain_id from_block accept force_full progress e

  -- What is said of members that are served or refused at a block: they are those after every block
  -- up to it, and the verdict is that of the registry's count and fingerprint there.
  abbrev IsTold : ReplayProgress → ℕ → Option Disagreement → Type 0
  IsTold replay target verdict =
      Told decode_log history fetch_logs_chunk safe_head keccak256 membership_at cancelled faithful
        from_block replay.members target verdict

  abbrev IsUpTo : ReplayProgress → ℕ → Type 0
  IsUpTo replay target =
      SameMembers replay.members
        (replayed decode_log history [] from_block (target + 1 - from_block))

  -- Members are verified, or else they are those of a full replay with which the registry disagrees,
  -- after as many mismatches as are tolerated.
  abbrev IsPassed : ℕ → Bool → ReplayProgress → ℕ → Type 0
  IsPassed mismatches verdict replay target =
      ((verdict ≡ true) × IsTold replay target none)
      ⊎ ((verdict ≡ false)
          × (full_replay_mismatch_tolerance ≤ mismatches)
          × (is_resume replay.plan ≡ false)
          × ((reason : Disagreement) × IsTold replay target (some reason)))

  abbrev pub Kept : Option ReplayProgress → Type 0
  Kept =
      IsKept decode_log history fetch_logs_chunk safe_head keccak256 membership_at cancelled
        faithful from_block

  -- What an attempt ends with after a number of mismatches.
  abbrev pub IsStarted : ℕ → Option (Outcome E) → Type 0
  IsStarted mismatches none = ⊥
  IsStarted mismatches (some (live_from target verdict state e)) =
      (replay : ReplayProgress) × (before : AppState) × (reconcile replay.members target verdict
          before
        ≡ (state, none))
      × IsUpTo replay target
      × IsPassed mismatches verdict replay target
  IsStarted mismatches (some (rpc_failed error progress state e)) = Kept progress
  IsStarted mismatches (some (mismatched reason state e)) =
      (mismatches < full_replay_mismatch_tolerance)
      × ((replay : ReplayProgress) × (target : ℕ) × (is_resume replay.plan ≡ false)
          × IsTold replay target (some reason))

  -- The stored rows are those of the checkpoint whenever an attempt reads them.
  abbrev pub AreStoredRight : Type 0
  AreStoredRight =
      (chain_id : ℕ) (before : AppState) (accept : Bool)
      → IsStoredRight decode_log history fetch_logs_chunk safe_head keccak256 membership_at
          cancelled faithful from_block parse (checkpoint before) (stored before) chain_id accept

  module _ (describe : Disagreement → Text) where
    -- The supervisor after its attempts, the last one first.
    abbrev pub supervised : List (Outcome E) → Supervisor
    supervised [] = begin_supervisor
    supervised (outcome ∷ outcomes) = (supervise describe (supervised outcomes) outcome).0

    -- Each is what an attempt of the supervisor after the ones before it ends with, whatever the
    -- state and the world are by then.
    abbrev pub AreAttempts : List (Outcome E) → Type 0
    AreAttempts [] = Unit
    AreAttempts (outcome ∷ outcomes) =
        AreAttempts outcomes
        × ((answer : Result ℕ) × (state : AppState) × (e : E) × (initial_chain_sync reconcile rounds
                answer (supervised outcomes) state e
              ≡ some outcome))

    -- The number of mismatches since the last success.
    abbrev mismatches_since : List (Outcome E) → ℕ
    mismatches_since [] = 0
    mismatches_since (live_from target verdict state e ∷ outcomes) = 0
    mismatches_since (rpc_failed error progress state e ∷ outcomes) = mismatches_since outcomes
    mismatches_since (mismatched reason state e ∷ outcomes) = suc (mismatches_since outcomes)
