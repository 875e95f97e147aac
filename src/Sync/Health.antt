-- ===== src/Sync/Health.antt =====
-- When `/healthz/sync` reports the indexer as healthy.
use nox_indexer.Prelude.{ℕ, ltb, ◌≡◌, refl, Bool, some, List, [], ◌∷◌, if◌then◌else◌, arith}
use nox_indexer.Prelude.Int.{ℤ}
use nox_indexer.Sync.Status.{
  live, SyncStatus, stale, unverified, healthy, unhealthy, age_secs, sync_age_secs, check_age,
  check_health, mark_synced, mark_caught_up, mark_checked,
}

-- What the live loop does to the status: catching up with the head, and a verdict on the members.
pub data LiveStep : Type 0 where
  caught_up : ℕ → ℕ → ℤ → LiveStep
  checked : Bool → LiveStep

unfoldable pub live_step : LiveStep → SyncStatus → SyncStatus
unfolding mark_caught_up mark_checked
live_step (caught_up last_block safe_head now_ms) sync =
    mark_caught_up last_block safe_head now_ms sync
live_step (checked verdict) sync = mark_checked verdict sync

unfoldable pub live_steps : List LiveStep → SyncStatus → SyncStatus
unfolding live_step
live_steps [] sync = sync
live_steps (s ∷ rest) sync = live_steps rest (live_step s sync)

-- The time of the last catching up, or the earlier one.
unfoldable pub last_time : ℤ → List LiveStep → ℤ
last_time at [] = at
last_time at (caught_up last_block safe_head now_ms ∷ rest) = last_time now_ms rest
last_time at (checked verdict ∷ rest) = last_time at rest

-- The last verdict, or the earlier one.
unfoldable pub last_verdict : Bool → List LiveStep → Bool
last_verdict v [] = v
last_verdict v (caught_up last_block safe_head now_ms ∷ rest) = last_verdict v rest
last_verdict v (checked verdict ∷ rest) = last_verdict verdict rest

-- The health of a status that is live, was last synced at `at` and has the verdict `v`.
health_at :
    (sync : SyncStatus) (at : ℤ) (v : Bool) (now_ms : ℤ) (max_age_secs : ℕ)
    → sync.phase ≡ live
    → sync.last_synced_at_ms ≡ some at
    → sync.verified ≡ some v
    → check_health sync now_ms max_age_secs ≡ (
        if ltb max_age_secs (age_secs now_ms at)
        then unhealthy stale
        else if v
        then healthy
        else unhealthy unverified)
unfolding check_health check_age sync_age_secs
health_at sync at v now_ms max_age_secs p t d = rw p (rw t (rw d (ground arith)))

live_health :
    (steps : List LiveStep) (sync : SyncStatus) (at : ℤ) (v : Bool) (now_ms : ℤ) (max_age_secs : ℕ)
    → sync.phase ≡ live
    → sync.last_synced_at_ms ≡ some at
    → sync.verified ≡ some v
    → check_health (live_steps steps sync) now_ms max_age_secs ≡ (
        if ltb max_age_secs (age_secs now_ms (last_time at steps))
        then unhealthy stale
        else if last_verdict v steps
        then healthy
        else unhealthy unverified)
unfolding live_steps live_step mark_caught_up mark_checked last_time last_verdict
live_health [] sync at v now_ms max_age_secs p t d = health_at sync at v now_ms max_age_secs p t d
live_health (caught_up b h n ∷ rest) sync at v now_ms max_age_secs p t d =
    live_health rest (live_step (caught_up b h n) sync) n v now_ms max_age_secs p refl d
live_health (checked w ∷ rest) sync at v now_ms max_age_secs p t d =
    live_health rest (live_step (checked w) sync) at w now_ms max_age_secs p t refl

-- After a completed sync and any steps of the live loop the status is stale exactly when the last
-- catching up is more than the limit ago; otherwise the last verdict on the members decides.
pub live_loop_health :
    (steps : List LiveStep) (sync : SyncStatus) (block : ℕ) (v : Bool) (at now_ms : ℤ)
    (max_age_secs : ℕ)
    → check_health (live_steps steps (mark_synced block v at sync)) now_ms max_age_secs ≡ (
        if ltb max_age_secs (age_secs now_ms (last_time at steps))
        then unhealthy stale
        else if last_verdict v steps
        then healthy
        else unhealthy unverified)
unfolding mark_synced
live_loop_health steps sync block v at now_ms max_age_secs =
    live_health steps (mark_synced block v at sync) at v now_ms max_age_secs refl refl refl
