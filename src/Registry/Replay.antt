-- ===== src/Registry/Replay.antt =====
-- The replay of registry events: `SyncPlan`, `plan_sync`, `ReplayProgress` and `scan_membership` of
-- src/chain/discovery.rs. A fetch of a chunk is an argument, with the state that it changes.
-- Block numbers are unbounded, which differs from a `u64` at its last value alone.
use nox_indexer.Prelude.{
  ℕ, zero, suc, ◌+◌, ◌-◌, leb, Bool, true, false, ◌&&◌, not, Option, none, some, List, [], ◌∷◌,
  if◌then◌else◌,
}
use nox_indexer.Prelude.Words.{saturating_add}
use nox_indexer.Prelude.Text.{Text}
use nox_indexer.Fetch.Chunked.{Fetched, fetched, gave_up}
use nox_indexer.Registry.Events.{Address, ChainNodeEvent, apply_membership_event}

pub data SyncPlan : Type 0 where
  full : ℕ → SyncPlan
  resume : ℕ → SyncPlan

-- `SyncPlan::start`
unfoldable pub start : SyncPlan → ℕ
start (full from) = from
start (resume from) = from

-- `SyncPlan::is_resume`
unfoldable pub is_resume : SyncPlan → Bool
is_resume (full from) = false
is_resume (resume from) = true

-- Resume behind a checkpoint that is not below the deployment block, unless a full replay is forced.
unfoldable pub plan_sync : Option ℕ → ℕ → Bool → SyncPlan
plan_sync none from_block force_full = full from_block
plan_sync (some last) from_block force_full =
    if not force_full && leb from_block (saturating_add last 1)
    then resume (last + 1)
    else full from_block

pub record ReplayProgress : Type 0 where
  pub chain_id : ℕ
  pub plan : SyncPlan
  pub next_block : ℕ
  pub members : List Address

-- What a scan ends with: success, or the error of a fetch with the progress kept.
pub data Scan (E : Type 0) : Type 0 where
  scanned : ReplayProgress → E → Scan E
  failed : Text → ReplayProgress → E → Scan E

module _ {Log : Type 0} (decode_log : Log → Option ChainNodeEvent) where
  -- `for log in &logs { if let Some(event) = decode_log(log) { apply_membership_event(..) } }`
  unfoldable pub apply_logs : List Address → List Log → List Address
  apply_logs members [] = members
  apply_logs members (log ∷ logs) =
      apply_logs
        (elim (decode_log log) [
          | none ↦ members
          | some event ↦ (apply_membership_event members event).0
        ])
        logs

  module _ {E : Type 0} (fetch_logs_chunk : E → ℕ → ℕ → Fetched Log × E) where
    -- `scan_membership`, on fuel; `none` means that the fuel ran out.
    unfoldable pub scan_loop : ℕ → E → ReplayProgress → ℕ → Option (Scan E)
    unfolding apply_logs
    scan_loop zero e replay target = none
    scan_loop (suc fuel) e replay target =
        let (answer, e') = fetch_logs_chunk e replay.next_block target in
        let turn : Option (Scan E) = elim answer [
          | gave_up error ↦ some (failed error replay e')
          | fetched logs end ↦
              scan_loop fuel e'
                (record replay { next_block = end + 1; members = apply_logs replay.members logs })
                target
        ] in
        if leb replay.next_block target then turn else some (scanned replay e)

    -- Each chunk covers a block at least, so this fuel is enough.
    unfoldable pub scan_membership : E → ReplayProgress → ℕ → Option (Scan E)
    unfolding scan_loop
    scan_membership e replay target =
        scan_loop (suc (target + 1 - replay.next_block)) e replay target
