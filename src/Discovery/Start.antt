-- ===== src/Discovery/Start.antt =====
-- `initial_chain_sync` and one round of `run_chain_sync` of src/chain/discovery.rs. The answer to the
-- chain's id, the refusals of the database and the exit of the live loop are arguments; the waits are
-- left out.
use nox_indexer.Prelude.{ℕ, suc, leb, Bool, true, false, Option, none, some, List, ◌++◌}
use nox_indexer.Prelude.Text.{Text, text}
use nox_indexer.Prelude.Results.{Result, ok, err}
use nox_indexer.Registry.Fingerprint.{Disagreement}
use nox_indexer.Registry.Events.{Address}
use nox_indexer.Registry.Replay.{ReplayProgress}
use nox_indexer.Sync.Status.{syncing, SyncStatus, mark_retrying}
use nox_indexer.Discovery.State.{AppState}
use nox_indexer.Discovery.Initial.{Synced, agreed, rpc, mismatch, begin_sync}

-- `FULL_REPLAY_MISMATCH_TOLERANCE`
abbrev pub full_replay_mismatch_tolerance : ℕ
full_replay_mismatch_tolerance = 2

-- What an attempt ends with: the block and whether the members are verified, or one of two errors.
pub data Outcome (E : Type 0) : Type 0 where
  live_from : ℕ → Bool → AppState → E → Outcome E
  rpc_failed : Text → Option ReplayProgress → AppState → E → Outcome E
  mismatched : Disagreement → AppState → E → Outcome E

-- The variables of the supervisor.
pub record Supervisor : Type 0 where
  pub attempt : ℕ
  pub progress : Option ReplayProgress
  pub force_full : Bool
  pub full_mismatches : ℕ

-- The first ones.
abbrev pub begin_supervisor : Supervisor
begin_supervisor = record { attempt = 0; progress = none; force_full = false; full_mismatches = 0 }

unfoldable pub accept_unverified : Supervisor → Bool
accept_unverified s = leb full_replay_mismatch_tolerance s.full_mismatches

-- The reconciliation is an argument, `reconcile_membership` at its answers; so are the rounds of the
-- synchronisation, `sync_rounds` at its ones, by whether a full replay is forced, whether it is accepted
-- unverified, and the progress.
module _ {E : Type 0} (reconcile : List Address → ℕ → Bool → AppState → AppState × Option Text)
    (rounds : ℕ → Bool → Bool → Option ReplayProgress → AppState → E → Option (Synced E)) where
  abbrev pub reconciled : ℕ → Bool → ReplayProgress → E → AppState × Option Text → Outcome E
  reconciled target verdict replay e (state, none) = live_from target verdict state e
  reconciled target verdict replay e (state, some error) = rpc_failed error (some replay) state e

  unfoldable pub after_rounds : AppState → Option (Synced E) → Option (Outcome E)
  after_rounds state none = none
  after_rounds state (some (agreed target verdict replay e)) =
      some (reconciled target verdict replay e (reconcile replay.members target verdict state))
  after_rounds state (some (rpc error progress e)) = some (rpc_failed error progress state e)
  after_rounds state (some (mismatch reason replay e)) = some (mismatched reason state e)

  -- `initial_chain_sync`
  unfoldable pub initial_chain_sync : Result ℕ → Supervisor → AppState → E → Option (Outcome E)
  unfolding after_rounds begin_sync accept_unverified
  initial_chain_sync (err error) s state e = some (rpc_failed error s.progress state e)
  initial_chain_sync (ok chain_id) s state e =
      let begun = record state { sync = begin_sync chain_id state.sync } in
      after_rounds begun (rounds chain_id s.force_full (accept_unverified s) s.progress begun e)

abbrev pub failed_with : Text → Supervisor → AppState → Supervisor × AppState
failed_with error s state = (
  record s { attempt = suc s.attempt },
  record state { sync = mark_retrying (suc s.attempt) error state.sync },
)

abbrev pub set_syncing : SyncStatus → SyncStatus
set_syncing sync = record sync { phase = syncing }

-- The supervisor after an attempt; the live loop of a successful one asked for a full replay.
-- `describe` is the text of a disagreement.
unfoldable pub supervise :
    {E : Type 0} → (Disagreement → Text) → Supervisor → Outcome E → Supervisor × AppState
unfolding mark_retrying
supervise describe s (live_from target verdict state e) = (
  record { attempt = 0; progress = none; force_full = true; full_mismatches = 0 },
  record state { sync = set_syncing state.sync },
)
supervise describe s (mismatched reason state e) =
    failed_with (text "full replay disagrees with registry: " ++ describe reason)
      (record s { progress = none; force_full = true; full_mismatches = suc s.full_mismatches })
      state
supervise describe s (rpc_failed error progress state e) =
    failed_with error (record s { progress = progress }) state
