-- ===== src/Sync/Tests.antt =====
-- The status after a sync, a catching up and a failed check.
use nox_indexer.Prelude.{ltb, not, ◌&&◌, ◌≡◌, true, false, none, List, [], ◌∷◌, if◌then◌else◌}
use nox_indexer.Prelude.Int.{pos}
use nox_indexer.Sync.Status.{SyncStatus, starting, age_secs, mark_synced}
use nox_indexer.Sync.Healthz.{handle_healthz_sync, handle_healthz_sync-code}
use nox_indexer.Sync.Health.{LiveStep, caught_up, checked, live_steps, last_time, last_verdict}

abbrev first : SyncStatus
first = record {
  phase = starting;
  chain_id = none;
  registry_address = [];
  last_block = none;
  scan_block = none;
  verified = none;
  attempts = 0;
  last_error = none;
  last_synced_at_ms = none;
  head_block = none;
}

abbrev steps : List LiveStep
steps = caught_up 12 12 (pos 70_000) ∷ checked false ∷ []

handle_healthz_sync-code_example :
    (handle_healthz_sync true
      (live_steps steps (mark_synced 10 true (pos 1_000) first))
      (pos 100_000)
      300).code
    ≡ (if true
          && not (ltb 300 (age_secs (pos 100_000) (last_time (pos 1_000) steps)))
          && last_verdict true steps
        then 200
        else 503)
handle_healthz_sync-code_example =
    handle_healthz_sync-code true steps first 10 true (pos 1_000) (pos 100_000) 300
