-- ===== src/Discovery/Initial.antt =====
-- `initial_chain_sync` of src/chain/discovery.rs up to the reconciliation. The world outside is a state
-- `E`; the answers of the database to `new_progress` are arguments. The progress that a scan writes to
-- the status while it runs is left out.
use Prim.Native.Nat
use nox_indexer.Prelude.{
  ℕ, zero, suc, ◌-◌, ◌==◌, Bool, true, false, not, Option, none, some, List, ◌++◌, if◌then◌else◌,
}
use nox_indexer.Prelude.Text.{Text, text, show_u64}
use nox_indexer.Prelude.Results.{Result, ok, err}
use nox_indexer.Fetch.Chunked.{Fetched}
use nox_indexer.Sync.Status.{syncing, retrying, SyncStatus}
use nox_indexer.Registry.Events.{Address, ChainNodeEvent}
use nox_indexer.Registry.Fingerprint.{Bits, Disagreement}
use nox_indexer.Registry.Replay.{ReplayProgress, is_resume, Scan, scanned, failed, scan_membership}
use nox_indexer.Registry.Progress.{new_progress}
use nox_indexer.Discovery.Retried.{retry_rpc_attempts, verify_membership}

-- `VERIFY_ATTEMPTS`
abbrev pub verify_attempts : ℕ
verify_attempts = 5

-- `SAME_BLOCK_VERIFY_ATTEMPTS`
abbrev pub same_block_verify_attempts : ℕ
same_block_verify_attempts = 3

-- A set that was checked at a block, or the error that ended the rounds, with the progress kept.
pub data Checked (E : Type 0) : Type 0 where
  checked : ℕ → Option Disagreement → ReplayProgress → E → Checked E
  unchecked : Text → ReplayProgress → E → Checked E

-- What a sync comes to before the reconciliation: members to serve at a block, verified or not, or one
-- of the two errors, with the progress kept, if there is one.
pub data Synced (E : Type 0) : Type 0 where
  agreed : ℕ → Bool → ReplayProgress → E → Synced E
  rpc : Text → Option ReplayProgress → E → Synced E
  mismatch : Disagreement → ReplayProgress → E → Synced E

-- The status at the start of an attempt.
unfoldable pub begin_sync : ℕ → SyncStatus → SyncStatus
begin_sync id sync = record sync {
  chain_id = some id;
  phase = elim sync.phase [ retrying ↦ retrying | _ ↦ syncing ];
}

module _ {E : Type 0} {Log : Type 0} (decode_log : Log → Option ChainNodeEvent)
    (fetch_logs_chunk : E → ℕ → ℕ → Fetched Log × E) (safe_head : E → Result ℕ × E)
    (keccak256 : Address → Bits) (membership_at : E → ℕ → Result (ℕ × Bits) × E)
    (cancelled : E → Bool) where
  -- The check of a scanned set, with its quick retries at the same block.
  abbrev pub check_at : List Address → ℕ → E → Result (Option Disagreement) × E
  check_at members target e =
      retry_rpc_attempts cancelled (text "registry membership check")
        (verify_membership keccak256 membership_at members target) same_block_verify_attempts e

  unfoldable pub after_check :
      Bool
      → ℕ
      → (E → ReplayProgress → Option (Checked E))
      → ℕ
      → ReplayProgress
      → Result (Option Disagreement) × E
      → Option (Checked E)
  after_check last attempt again target replay (ok verdict, e) =
      some (checked target verdict replay e)
  after_check last attempt again target replay (err error, e) =
      if last
      then some (
          unchecked
            (text "registry membership check failed "
              ++ show_u64 attempt
              ++ text " times: "
              ++ error)
            replay e)
      else if cancelled e
      then some (unchecked (text "shutting down") replay e)
      else again e replay

  unfoldable pub after_scan :
      Bool
      → ℕ
      → (E → ReplayProgress → Option (Checked E))
      → ℕ
      → Option (Scan E)
      → Option (Checked E)
  unfolding after_check retry_rpc_attempts verify_membership
  after_scan last attempt again target none = none
  after_scan last attempt again target (some (failed error replay e)) =
      some (unchecked error replay e)
  after_scan last attempt again target (some (scanned replay e)) =
      after_check last attempt again target replay (check_at replay.members target e)

  -- `safe_head.max(next_block.saturating_sub(1))`
  abbrev pub target_of : ℕ → ReplayProgress → ℕ
  target_of head replay = Nat.max head (replay.next_block - 1)

  unfoldable pub after_head :
      Bool
      → ℕ
      → (E → ReplayProgress → Option (Checked E))
      → ReplayProgress
      → Result ℕ × E
      → Option (Checked E)
  unfolding after_scan scan_membership
  after_head last attempt again replay (err error, e) = some (unchecked error replay e)
  after_head last attempt again replay (ok head, e) =
      after_scan last attempt again (target_of head replay)
        (scan_membership decode_log fetch_logs_chunk e replay (target_of head replay))

  -- The rounds at a fresh head, with `left` of them after this one.
  unfoldable pub verify_rounds : ℕ → ℕ → E → ReplayProgress → Option (Checked E)
  unfolding after_head
  verify_rounds zero attempt e replay =
      after_head true attempt (λ e' replay'. none) replay (safe_head e)
  verify_rounds (suc left) attempt e replay =
      after_head false attempt (λ e' replay'. verify_rounds left (suc attempt) e' replay') replay
        (safe_head e)

  module _ (parse : Text → Option Address) (checkpoint : Result (Option ℕ))
      (stored : Result (List Text)) (chain_id from_block : ℕ) (accept_unverified : Bool) where
    -- The progress to go on with.
    abbrev pub progress_for : Bool → Option ReplayProgress → Result ReplayProgress
    progress_for force_full none =
        new_progress parse checkpoint stored chain_id from_block force_full
    progress_for force_full (some replay) =
        if replay.chain_id == chain_id
        then ok replay
        else new_progress parse checkpoint stored chain_id from_block force_full

    -- A disagreement of a resumed set makes a full replay, `again`.
    unfoldable pub after_verdict : (E → Option (Synced E)) → Option (Checked E) → Option (Synced E)
    unfolding is_resume
    after_verdict again none = none
    after_verdict again (some (unchecked error replay e)) = some (rpc error (some replay) e)
    after_verdict again (some (checked target none replay e)) = some (agreed target true replay e)
    after_verdict again (some (checked target (some reason) replay e)) =
        if is_resume replay.plan
        then again e
        else if not accept_unverified
        then some (mismatch reason replay e)
        else some (agreed target false replay e)

    unfoldable pub sync_round :
        (E → Option (Synced E))
        → Result ReplayProgress
        → Option ReplayProgress
        → E
        → Option (Synced E)
    unfolding after_verdict verify_rounds
    sync_round again (err error) before e = some (rpc error before e)
    sync_round again (ok replay) before e =
        after_verdict again (verify_rounds (verify_attempts - 1) 1 e replay)

    -- The loop: a round, and after a resumed set that disagrees one more from scratch. A third never
    -- comes, since that one is no resumption.
    unfoldable pub sync_rounds : Bool → Option ReplayProgress → E → Option (Synced E)
    unfolding sync_round new_progress
    sync_rounds force_full progress e =
        sync_round (λ e'. sync_round (λ e''. none) (progress_for true none) none e')
          (progress_for force_full progress) progress e
