-- ===== src/Discovery/Kept.antt =====
-- What retries and scans keep: a value comes from the operation, and a scan keeps its plan.
use nox_indexer.Prelude.{
  ℕ, zero, suc, ◌+◌, ◌≡◌, inl, inr, refl, leb, Bool, true, false, Option, none, some, if◌then◌else◌,
  Bool-cases,
}
use nox_indexer.Prelude.Text.{Text}
use nox_indexer.Prelude.Results.{Result, ok, err}
use nox_indexer.Fetch.Chunked.{Fetched, fetched, gave_up}
use nox_indexer.Registry.Events.{ChainNodeEvent}
use nox_indexer.Registry.Replay.{
  SyncPlan, ReplayProgress, Scan, scanned, failed, apply_logs, scan_loop,
}
use nox_indexer.Discovery.Retried.{after_attempt, retry_loop}

module _ {E : Type 0} (cancelled : E → Bool) {A : Type 0} (label : Text)
    (operation : E → Result A × E) where
  -- A value came from the operation.
  abbrev pub Came : Result A × E → Type 0
  Came (err error, e) = Unit
  Came (ok value, e) = (e₀ : E) × (operation e₀ ≡ (ok value, e))

  operation-Came : (e : E) (r : Result A × E) → operation e ≡ r → Came r
  operation-Came e (err error, e') h = tt
  operation-Came e (ok value, e') h = (e, h)

  after_attempt-Came :
      (last : Bool) (attempt : ℕ) (again : E → Result A × E) (r : Result A × E)
      → ((e : E) → Came (again e))
      → Came r
      → Came (after_attempt cancelled label operation last attempt again r)
  unfolding after_attempt
  after_attempt-Came last attempt again (ok value, e) h c = c
  after_attempt-Came true attempt again (err error, e) h c = tt
  after_attempt-Came false attempt again (err error, e) h c = elim (Bool-cases (cancelled e)) [
    | inl stop ↦ rw stop tt
    | inr go ↦ rw go (h e)
  ]

  pub retry_loop-Came :
      (left attempt : ℕ) (e : E) → Came (retry_loop cancelled label operation left attempt e)
  unfolding retry_loop
  retry_loop-Came zero attempt e =
      after_attempt-Came true attempt (λ e'. operation e') (operation e)
        (λ e'. operation-Came e' (operation e') refl) (operation-Came e (operation e) refl)
  retry_loop-Came (suc left) attempt e =
      after_attempt-Came false attempt
        (λ e'. retry_loop cancelled label operation left (suc attempt) e') (operation e)
        (λ e'. retry_loop-Came left (suc attempt) e') (operation-Came e (operation e) refl)

module _ {E : Type 0} {Log : Type 0} (decode_log : Log → Option ChainNodeEvent)
    (fetch_logs_chunk : E → ℕ → ℕ → Fetched Log × E) where
  -- A scan keeps the plan.
  abbrev pub KeepsPlan : SyncPlan → Option (Scan E) → Type 0
  KeepsPlan plan none = Unit
  KeepsPlan plan (some (scanned replay e)) = replay.plan ≡ plan
  KeepsPlan plan (some (failed error replay e)) = replay.plan ≡ plan

  turn-KeepsPlan :
      (more : Bool) (fuel : ℕ) (e : E) (replay : ReplayProgress) (target : ℕ)
      (answer : Fetched Log × E)
      → ((e' : E) (r : ReplayProgress)
          → KeepsPlan r.plan (scan_loop decode_log fetch_logs_chunk fuel e' r target))
      → KeepsPlan replay.plan (
          if more
          then elim answer.0 [
            | gave_up error ↦ some (failed error replay answer.1)
            | fetched logs end ↦
                scan_loop decode_log fetch_logs_chunk fuel answer.1
                  (record replay {
                    next_block = end + 1;
                    members = apply_logs decode_log replay.members logs;
                  })
                  target
          ]
          else some (scanned replay e))
  turn-KeepsPlan false fuel e replay target answer h = refl
  turn-KeepsPlan true fuel e replay target (gave_up error, e') h = refl
  turn-KeepsPlan true fuel e replay target (fetched logs end, e') h =
      h e' (record replay {
        next_block = end + 1;
        members = apply_logs decode_log replay.members logs;
      })

  pub scan_loop-KeepsPlan :
      (fuel : ℕ) (target : ℕ) (e : E) (replay : ReplayProgress)
      → KeepsPlan replay.plan (scan_loop decode_log fetch_logs_chunk fuel e replay target)
  unfolding scan_loop
  scan_loop-KeepsPlan zero target e replay = tt
  scan_loop-KeepsPlan (suc fuel) target e replay =
      turn-KeepsPlan (leb replay.next_block target) fuel e replay target
        (fetch_logs_chunk e replay.next_block target) (λ e' r. scan_loop-KeepsPlan fuel target e' r)
