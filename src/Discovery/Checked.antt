-- ===== src/Discovery/Checked.antt =====
-- The rounds of a membership check end, and a checked set is the chain's history.
use Prim.Native.Nat
use nox_indexer.Prelude.{
  ℕ, zero, suc, ◌+◌, ◌-◌, ◌≡◌, inl, inr, refl, ap, subst, ◌∙◌, Bool, true, false, Option, none,
  some, List, [], arith, Bool-cases,
}
use nox_indexer.Prelude.Text.{text}
use nox_indexer.Prelude.Results.{Result, ok, err}
use nox_indexer.Fetch.Chunked.{Fetched}
use nox_indexer.Registry.Events.{Address, ChainNodeEvent}
use nox_indexer.Registry.Fingerprint.{Bits, Disagreement, validate_pinned_membership}
use nox_indexer.Registry.Replay.{SyncPlan, ReplayProgress, Scan, scanned, failed, scan_membership}
use nox_indexer.Registry.Resume.{IsReplayed, IsFaithful, IsScanned, scan_membership-IsScanned}
use nox_indexer.Discovery.Retried.{retry_rpc_attempts, verdict_from, verify_membership}
use nox_indexer.Discovery.Initial.{
  Checked, checked, unchecked, check_at, after_check, after_scan, target_of, after_head,
  verify_rounds, same_block_verify_attempts,
}
use nox_indexer.Discovery.Kept.{Came, retry_loop-Came, KeepsPlan, scan_loop-KeepsPlan}

module _ {E : Type 0} {Log : Type 0} (decode_log : Log → Option ChainNodeEvent)
    (history : ℕ → List Log) (fetch_logs_chunk : E → ℕ → ℕ → Fetched Log × E)
    (safe_head : E → Result ℕ × E) (keccak256 : Address → Bits)
    (membership_at : E → ℕ → Result (ℕ × Bits) × E) (cancelled : E → Bool)
    (faithful : IsFaithful decode_log history fetch_logs_chunk) (from_block : ℕ) where
  -- The verdict on the members is that of the count and the fingerprint that the registry reports at
  -- the block.
  abbrev pub Told : List Address → ℕ → Option Disagreement → Type 0
  Told members target verdict =
      (e : E) × (count : ℕ) × (fingerprint : Bits) × (((membership_at e target).0
          ≡ ok (count, fingerprint))
        × (validate_pinned_membership keccak256 members count fingerprint ≡ verdict))

  abbrev pub IsChecked : SyncPlan → Option (Checked E) → Type 0
  IsChecked plan none = ⊥
  IsChecked plan (some (unchecked error replay e)) =
      IsReplayed decode_log history from_block [] replay
  IsChecked plan (some (checked target verdict replay e)) =
      IsReplayed decode_log history from_block [] replay
      × (replay.next_block ≡ target + 1)
      × (replay.plan ≡ plan)
      × Told replay.members target verdict

  told :
      (members : List Address) (target : ℕ) (e₀ e : E) (verdict : Option Disagreement)
      (answer : Result (ℕ × Bits) × E)
      → membership_at e₀ target ≡ answer
      → verdict_from keccak256 membership_at members answer ≡ (ok verdict, e)
      → Told members target verdict
  told members target e₀ e verdict (err error, e') h g = absurd cc
  told members target e₀ e verdict (ok (count, fingerprint), e') h g =
      (e₀, count, fingerprint, (ap (λ (r : Result (ℕ × Bits) × E). r.0) h, cc))

  checked-Told :
      (members : List Address) (target : ℕ) (e : E) (verdict : Option Disagreement)
      (r : Result (Option Disagreement) × E)
      → Came cancelled
          (text "registry membership check")
          (verify_membership keccak256 membership_at members target)
          r
      → r ≡ (ok verdict, e)
      → Told members target verdict
  unfolding verify_membership
  checked-Told members target e verdict (err error, e') c g = absurd cc
  checked-Told members target e verdict (ok v, e') (e₀, c) g =
      told members target e₀ e verdict (membership_at e₀ target) refl (c ∙ g)

  after_check-IsChecked :
      (last : Bool) (attempt : ℕ) (again : E → ReplayProgress → Option (Checked E)) (target : ℕ)
      (plan : SyncPlan) (replay : ReplayProgress) (r : Result (Option Disagreement) × E)
      → ((e : E) → last ≡ false → IsChecked plan (again e replay))
      → IsReplayed decode_log history from_block [] replay
      → replay.next_block ≡ target + 1
      → replay.plan ≡ plan
      → ((v : Option Disagreement) (e : E) → r ≡ (ok v, e) → Told replay.members target v)
      → IsChecked plan (
          after_check decode_log fetch_logs_chunk safe_head keccak256 membership_at cancelled last
            attempt again target replay r)
  unfolding after_check
  after_check-IsChecked last attempt again target plan replay (ok verdict, e) h v n p t =
      (v, n, p, t verdict e refl)
  after_check-IsChecked true attempt again target plan replay (err error, e) h v n p t = v
  after_check-IsChecked false attempt again target plan replay (err error, e) h v n p t =
      elim (Bool-cases (cancelled e)) [ inl stop ↦ rw stop v | inr go ↦ rw go (h e refl) ]

  after_scan-IsChecked :
      (last : Bool) (attempt : ℕ) (again : E → ReplayProgress → Option (Checked E)) (target : ℕ)
      (plan : SyncPlan) (scan : Option (Scan E))
      → ((e : E) (replay : ReplayProgress)
          → last ≡ false
          → replay.plan ≡ plan
          → IsReplayed decode_log history from_block [] replay
          → IsChecked plan (again e replay))
      → KeepsPlan decode_log fetch_logs_chunk plan scan
      → IsScanned decode_log history fetch_logs_chunk from_block [] (target + 1) target scan
      → IsChecked plan (
          after_scan decode_log fetch_logs_chunk safe_head keccak256 membership_at cancelled last
            attempt again target scan)
  unfolding after_scan retry_rpc_attempts
  after_scan-IsChecked last attempt again target plan none h k s = s
  after_scan-IsChecked last attempt again target plan (some (failed error replay e)) h k s = s.0
  after_scan-IsChecked last attempt again target plan (some (scanned replay e)) h k s =
      let operation = verify_membership keccak256 membership_at replay.members target in
      let answer =
        check_at decode_log fetch_logs_chunk safe_head keccak256 membership_at cancelled
          replay.members target e in
      after_check-IsChecked last attempt again target plan replay answer
        (λ e' l. h e' replay l k s.0) s.0 s.1 k
        (λ v e' g.
          checked-Told replay.members target e' v answer
            (retry_loop-Came cancelled (text "registry membership check") operation
              (same_block_verify_attempts - 1) 1 e)
            g)

  after_head-IsChecked :
      (last : Bool) (attempt : ℕ) (again : E → ReplayProgress → Option (Checked E))
      (replay : ReplayProgress) (r : Result ℕ × E)
      → ((e : E) (replay' : ReplayProgress)
          → last ≡ false
          → replay'.plan ≡ replay.plan
          → IsReplayed decode_log history from_block [] replay'
          → IsChecked replay.plan (again e replay'))
      → IsReplayed decode_log history from_block [] replay
      → IsChecked replay.plan (
          after_head decode_log fetch_logs_chunk safe_head keccak256 membership_at cancelled last
            attempt again replay r)
  unfolding after_head scan_membership
  after_head-IsChecked last attempt again replay (err error, e) h v = v
  after_head-IsChecked last attempt again replay (ok head, e) h v =
      let target =
        target_of decode_log fetch_logs_chunk safe_head keccak256 membership_at cancelled head
          replay in
      let scan = scan_membership decode_log fetch_logs_chunk e replay target in
      let goal : Nat.max replay.next_block (target + 1) ≡ target + 1 = ground arith in
      after_scan-IsChecked last attempt again target replay.plan scan h
        (scan_loop-KeepsPlan decode_log fetch_logs_chunk (suc (target + 1 - replay.next_block))
          target e replay)
        (subst (λ g. IsScanned decode_log history fetch_logs_chunk from_block [] g target scan) goal
          (scan_membership-IsScanned decode_log history fetch_logs_chunk faithful from_block [] e
            replay target v))

  pub verify_rounds-IsChecked :
      (left attempt : ℕ) (plan : SyncPlan) (e : E) (replay : ReplayProgress)
      → replay.plan ≡ plan
      → IsReplayed decode_log history from_block [] replay
      → IsChecked plan (
          verify_rounds decode_log fetch_logs_chunk safe_head keccak256 membership_at cancelled left
            attempt e replay)
  unfolding verify_rounds
  verify_rounds-IsChecked zero attempt plan e replay p v = rw (← p) (
      after_head-IsChecked true attempt (λ e' replay'. none) replay (safe_head e)
        (λ e' replay' l. absurd cc) v)
  verify_rounds-IsChecked (suc left) attempt plan e replay p v = rw (← p) (
      after_head-IsChecked false attempt
        (λ e' replay'.
          verify_rounds decode_log fetch_logs_chunk safe_head keccak256 membership_at cancelled left
            (suc attempt) e' replay')
        replay (safe_head e)
        (λ e' replay' l same w.
          verify_rounds-IsChecked left (suc attempt) replay.plan e' replay' same w)
        v)
