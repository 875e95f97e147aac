-- ===== src/Sync/Healthz.antt =====
-- `/healthz/sync` of src/api.rs.
use nox_indexer.Prelude.{
  ℕ, ltb, ◌≡◌, refl, Bool, true, false, ◌&&◌, not, Option, none, some, List, if◌then◌else◌,
}
use nox_indexer.Prelude.Int.{ℤ}
use nox_indexer.Prelude.Text.{Text, text}
use nox_indexer.Sync.Status.{
  SyncStatus, SyncUnhealthy, not_live, never_synced, stale, unverified, Health, healthy, unhealthy,
  age_secs, check_health, mark_synced,
}
use nox_indexer.Sync.Status
use nox_indexer.Sync.Health.{LiveStep, live_steps, last_time, last_verdict, live_loop_health}

-- `SyncUnhealthy::as_str`
unfoldable pub as_str : SyncUnhealthy → Text
as_str not_live = text "chain sync is not live"
as_str never_synced = text "chain sync has not completed"
as_str stale = text "chain sync is stale"
as_str unverified = text "membership disagrees with the registry"

-- The response, less the status that it repeats.
pub record HealthzSync : Type 0 where
  pub code : ℕ
  pub status : Text
  pub error : Option Text
  pub sync_age_secs : Option ℕ
  pub max_sync_age_secs : ℕ

abbrev pub problem_of : Bool → Health → Option Text
problem_of false checked' = some (text "database unavailable")
problem_of true healthy = none
problem_of true (unhealthy reason) = some (as_str reason)

abbrev pub respond : Option Text → Option ℕ → ℕ → HealthzSync
respond none age max_age_secs = record {
  code = 200;
  status = text "ok";
  error = none;
  sync_age_secs = age;
  max_sync_age_secs = max_age_secs;
}
respond (some problem) age max_age_secs = record {
  code = 503;
  status = text "unhealthy";
  error = some problem;
  sync_age_secs = age;
  max_sync_age_secs = max_age_secs;
}

-- `handle_healthz_sync`; the first argument says whether the database answers.
unfoldable pub handle_healthz_sync : Bool → SyncStatus → ℤ → ℕ → HealthzSync
unfolding as_str check_health
handle_healthz_sync answers sync now_ms max_age_secs =
    respond (problem_of answers (check_health sync now_ms max_age_secs))
      (Status.sync_age_secs sync now_ms) max_age_secs

code_of :
    (answers late verdict : Bool) (age : Option ℕ) (max_age_secs : ℕ)
    → (respond
        (problem_of answers
          (if late then unhealthy stale else if verdict then healthy else unhealthy unverified))
        age
        max_age_secs).code
      ≡ (if answers && not late && verdict then 200 else 503)
code_of true true verdict age max_age_secs = refl
code_of true false true age max_age_secs = refl
code_of true false false age max_age_secs = refl
code_of false late verdict age max_age_secs = refl

-- Once a sync has completed, whatever the live loop does after it, the endpoint answers 200 exactly
-- when the database answers, the last catching up is at most the limit ago and the last verdict on
-- the members is an agreement; otherwise it answers 503.
pub handle_healthz_sync-code :
    (answers : Bool) (steps : List LiveStep) (sync : SyncStatus) (block : ℕ) (v : Bool)
    (at now_ms : ℤ) (max_age_secs : ℕ)
    → (handle_healthz_sync answers
        (live_steps steps (mark_synced block v at sync))
        now_ms
        max_age_secs).code
      ≡ (if answers
            && not (ltb max_age_secs (age_secs now_ms (last_time at steps)))
            && last_verdict v steps
          then 200
          else 503)
unfolding handle_healthz_sync
handle_healthz_sync-code answers steps sync block v at now_ms max_age_secs =
    rw (live_loop_health steps sync block v at now_ms max_age_secs) (
      code_of answers (ltb max_age_secs (age_secs now_ms (last_time at steps)))
        (last_verdict v steps) _ max_age_secs)
