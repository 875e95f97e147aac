-- ===== src/Registry/Checkpoint.antt =====
-- Resuming behind a checkpoint yields the same members as replaying everything.
use Prim.Native.Nat
use nox_indexer.Prelude.{
  ℕ, ◌+◌, ◌-◌, ◌≤◌, ◌≡◌, ◌∙◌, sym, subst, refl, inl, inr, leb, Bool, true, false, ◌&&◌, not, Option,
  none, some, List, [], arith, Bool-cases,
}
use nox_indexer.Prelude.Words.{saturating_add}
use nox_indexer.Prelude.Text.{Text}
use nox_indexer.Prelude.Results.{ok}
use nox_indexer.Fetch.Chunked.{Fetched}
use nox_indexer.Registry.Events.{Address, ChainNodeEvent}
use nox_indexer.Registry.Members.{SameMembers}
use nox_indexer.Registry.Replay.{
  full, start, plan_sync, ReplayProgress, scanned, scan_membership, apply_logs,
}
use nox_indexer.Registry.Resume.{
  logs_of, replayed, IsReplayed, IsFaithful, scan_membership-IsScanned,
}
use nox_indexer.Registry.Progress.{collect_members, new_progress}

-- A plan starts neither below the deployment block nor beyond the block behind the checkpoint, unless
-- that is below the deployment block; a forced one is a full replay from the deployment block.
pub plan_sync_bounds :
    (last from_block : ℕ) (force_full : Bool)
    → (from_block ≤ start (plan_sync (some last) from_block force_full))
      × (start (plan_sync (some last) from_block force_full) ≤ Nat.max from_block (last + 1))
      × (plan_sync (some last) from_block true ≡ full from_block)
unfolding plan_sync start
plan_sync_bounds last from_block force_full = ground arith

ok_same {ℓ} : {A : Type ℓ} {a b : A} → ok a ≡ ok b → a ≡ b
ok_same e = cc

some_same {ℓ} : {A : Type ℓ} {a b : A} → some a ≡ some b → a ≡ b
some_same e = cc

module _ {Log : Type 0} (decode_log : Log → Option ChainNodeEvent) (history : ℕ → List Log)
    (parse : Text → Option Address) where
  -- The stored rows are those of the members at the checkpoint.
  abbrev pub IsStored : ℕ → ℕ → List Text → Type 0
  IsStored from_block last stored =
      SameMembers (collect_members parse stored)
        (replayed decode_log history [] from_block (last + 1 - from_block))

  pub from_scratch :
      (chain_id from_block : ℕ)
      → IsReplayed decode_log history from_block [] (record {
        chain_id = chain_id;
        plan = full from_block;
        next_block = from_block;
        members = [];
      })
  unfolding logs_of apply_logs
  from_scratch chain_id from_block = record {
    begun = omega arith;
    members_are = λ a. let nothing : from_block - from_block ≡ 0 = omega arith in rw nothing;
  }

  pub new_progress-IsReplayed :
      (last : Option ℕ) (stored : List Text) (chain_id from_block : ℕ) (force_full : Bool)
      {replay : ReplayProgress}
      → ((b : ℕ) → last ≡ some b → IsStored from_block b stored)
      → new_progress parse (ok last) (ok stored) chain_id from_block force_full ≡ ok replay
      → IsReplayed decode_log history from_block [] replay
  unfolding new_progress plan_sync start
  new_progress-IsReplayed none stored chain_id from_block force_full {replay} kept e =
      rw (← ok_same e) (from_scratch chain_id from_block)
  new_progress-IsReplayed (some b) stored chain_id from_block force_full kept e =
      elim (Bool-cases (not force_full && leb from_block (saturating_add b 1))) [
        | inl resumed ↦
            let e' = rw (resumed, new_progress, plan_sync) at e in
            rw (← ok_same e') (record { begun = ground arith; members_are = kept b refl })
        | inr forced ↦
            let e' = rw (forced, new_progress, plan_sync) at e in
            rw (← ok_same e') (from_scratch chain_id from_block)
      ]

  module _ {E : Type 0} (fetch_logs_chunk : E → ℕ → ℕ → Fetched Log × E) where
    -- Two scans that succeed up to the same block end with the same members, whether they resumed
    -- behind a checkpoint or replayed from the deployment block, if the fetched chunks are the chain's
    -- history and the stored rows are those of the checkpoint.
    pub resume_agrees_with_full :
        IsFaithful decode_log history fetch_logs_chunk
        → (last : ℕ) (stored : List Text) (chain_id from_block target : ℕ) (force_full : Bool)
          (e₁ e₂ : E) {r₁ r₂ s₁ s₂ : ReplayProgress} {e₁' e₂' : E}
        → IsStored from_block last stored
        → new_progress parse (ok (some last)) (ok stored) chain_id from_block force_full ≡ ok r₁
        → new_progress parse (ok none) (ok stored) chain_id from_block false ≡ ok r₂
        → scan_membership decode_log fetch_logs_chunk e₁ r₁ target ≡ some (scanned s₁ e₁')
        → scan_membership decode_log fetch_logs_chunk e₂ r₂ target ≡ some (scanned s₂ e₂')
        → s₁.next_block ≡ s₂.next_block
        → SameMembers s₁.members s₂.members
    resume_agrees_with_full faithful last stored chain_id from_block target force_full e₁ e₂ {r₁}
          {r₂} {s₁} {s₂} {e₁'} {e₂'} kept n₁ n₂ p₁ p₂ same a =
        let v₁ =
          new_progress-IsReplayed (some last) stored chain_id from_block force_full
            (λ b e. subst (λ c. IsStored from_block c stored) (some_same e) kept) n₁ in
        let v₂ = new_progress-IsReplayed none stored chain_id from_block false (λ b e. cc) n₂ in
        let w₁ = rw p₁ at (
          scan_membership-IsScanned decode_log history fetch_logs_chunk faithful from_block [] e₁ r₁
            target v₁) in
        let w₂ = rw p₂ at (
          scan_membership-IsScanned decode_log history fetch_logs_chunk faithful from_block [] e₂ r₂
            target v₂) in
        (w₁.0).members_are a ∙ rw same (sym ((w₂.0).members_are a))
