-- ===== src/Sync/Status.antt =====
-- `SyncStatus` of src/state.rs and the `AppState` operations that write it. Times are Unix
-- milliseconds in an `i64`.
use Prim.Native.Nat
use nox_indexer.Prelude.{
  ℕ, ◌+◌, ◌-◌, ◌/◌, ◌^◌, ltb, Bool, true, false, Option, none, some, if◌then◌else◌,
}
use nox_indexer.Prelude.Int.{ℤ, pos, negsuc, pos_part, neg_part, sub_ℕ}
use nox_indexer.Prelude.Text.{Text}

pub data SyncPhase : Type 0 where
  starting : SyncPhase
  syncing : SyncPhase
  retrying : SyncPhase
  live : SyncPhase

pub record SyncStatus : Type 0 where
  pub phase : SyncPhase
  pub chain_id : Option ℕ
  pub registry_address : Text
  pub last_block : Option ℕ
  pub scan_block : Option ℕ
  pub verified : Option Bool
  pub attempts : ℕ
  pub last_error : Option Text
  pub last_synced_at_ms : Option ℤ
  pub head_block : Option ℕ

pub data SyncUnhealthy : Type 0 where
  not_live : SyncUnhealthy
  never_synced : SyncUnhealthy
  stale : SyncUnhealthy
  unverified : SyncUnhealthy

pub data Health : Type 0 where
  healthy : Health
  unhealthy : SyncUnhealthy → Health

-- `i64::MAX`
abbrev pub i64_max : ℕ
i64_max = 2 ^ 63 - 1

abbrev pub clamp_i64 : ℤ → ℤ
clamp_i64 (pos n) = pos (Nat.min n i64_max)
clamp_i64 (negsuc n) = negsuc (Nat.min n i64_max)

-- `a.saturating_sub(b)` on `i64`
abbrev pub saturating_sub : ℤ → ℤ → ℤ
saturating_sub a b = clamp_i64 (sub_ℕ (pos_part a + neg_part b) (pos_part b + neg_part a))

-- The age of a sync at `at`, in whole seconds; a time in the future has the age 0.
abbrev pub age_secs : ℤ → ℤ → ℕ
age_secs now_ms at = pos_part (saturating_sub now_ms at) / 1000

unfoldable pub sync_age_secs : SyncStatus → ℤ → Option ℕ
sync_age_secs sync now_ms = elim sync.last_synced_at_ms [
  | none ↦ none
  | some at ↦ some (age_secs now_ms at)
]

abbrev pub is_live : SyncPhase → Bool
is_live starting = false
is_live syncing = false
is_live retrying = false
is_live live = true

-- The checks after that of the phase, for the sync's age and its verdict on the members.
unfoldable pub check_age : Option ℕ → Option Bool → ℕ → Health
check_age none verdict max_age_secs = unhealthy never_synced
check_age (some age) verdict max_age_secs =
    if ltb max_age_secs age
    then unhealthy stale
    else elim verdict [ none ↦ healthy | some true ↦ healthy | some false ↦ unhealthy unverified ]

unfoldable pub check_health : SyncStatus → ℤ → ℕ → Health
unfolding check_age sync_age_secs
check_health sync now_ms max_age_secs =
    if is_live sync.phase
    then check_age (sync_age_secs sync now_ms) sync.verified max_age_secs
    else unhealthy not_live

-- `AppState::mark_synced`, at the time `now_ms`.
unfoldable pub mark_synced : ℕ → Bool → ℤ → SyncStatus → SyncStatus
mark_synced block verdict now_ms sync = record sync {
  phase = live;
  last_block = some block;
  scan_block = some block;
  verified = some verdict;
  attempts = 0;
  last_error = none;
  last_synced_at_ms = some now_ms;
  head_block = some block;
}

-- `AppState::mark_caught_up`, at the time `now_ms`.
unfoldable pub mark_caught_up : ℕ → ℕ → ℤ → SyncStatus → SyncStatus
mark_caught_up last_block safe_head now_ms sync = record sync {
  last_block = some last_block;
  scan_block = some last_block;
  head_block = some safe_head;
  last_synced_at_ms = some now_ms;
}

-- What the supervisor records of a failed attempt.
unfoldable pub mark_retrying : ℕ → Text → SyncStatus → SyncStatus
mark_retrying attempt error sync = record sync {
  phase = retrying;
  attempts = attempt;
  last_error = some error;
}

-- What a membership check of the live loop records.
unfoldable pub mark_checked : Bool → SyncStatus → SyncStatus
mark_checked verdict sync = record sync { verified = some verdict }
