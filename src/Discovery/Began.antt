-- ===== src/Discovery/Began.antt =====
-- Where a replay begins, whatever the database answers.
use nox_indexer.Prelude.{
  ℕ, ◌≡◌, inl, inr, refl, ap, subst, leb, Bool, true, not, ◌&&◌, Option, none, some, List, [],
  Bool-cases,
}
use nox_indexer.Prelude.Words.{saturating_add}
use nox_indexer.Prelude.Text.{Text}
use nox_indexer.Prelude.Results.{Result, ok, err}
use nox_indexer.Registry.Events.{Address, ChainNodeEvent}
use nox_indexer.Registry.Replay.{start, plan_sync, ReplayProgress, is_resume}
use nox_indexer.Registry.Resume.{IsReplayed}
use nox_indexer.Registry.Progress.{initial_members, new_progress}
use nox_indexer.Registry.Checkpoint.{IsStored, from_scratch, new_progress-IsReplayed}

pub ok_same {ℓ} : {A : Type ℓ} {a b : A} → ok a ≡ ok b → a ≡ b
ok_same e = cc

-- A forced plan is no resumption.
pub not_resumed :
    (parse : Text → Option Address) (checkpoint : Result (Option ℕ)) (stored : Result (List Text))
    (chain_id from_block : ℕ) (replay : ReplayProgress)
    → new_progress parse checkpoint stored chain_id from_block true ≡ ok replay
    → is_resume replay.plan ≡ true
    → ⊥
unfolding new_progress plan_sync is_resume initial_members
not_resumed parse (err error) stored chain_id from_block replay e h = cc
not_resumed parse (ok none) stored chain_id from_block replay e h =
    let h' = rw (← ok_same e) at h in cc
not_resumed parse (ok (some last)) stored chain_id from_block replay e h =
    let h' = rw (← ok_same e) at h in cc

pub begun_progress :
    {Log : Type 0} (decode_log : Log → Option ChainNodeEvent) (history : ℕ → List Log)
    (parse : Text → Option Address) (checkpoint : Result (Option ℕ)) (stored : Result (List Text))
    (chain_id from_block : ℕ) (force_full : Bool) (replay : ReplayProgress)
    → ((last : ℕ) (rows : List Text)
        → checkpoint ≡ ok (some last)
        → stored ≡ ok rows
        → IsStored decode_log history parse from_block last rows)
    → new_progress parse checkpoint stored chain_id from_block force_full ≡ ok replay
    → IsReplayed decode_log history from_block [] replay
unfolding new_progress plan_sync initial_members start
begun_progress decode_log history parse (err error) stored chain_id from_block force_full replay
      right e =
    absurd cc
begun_progress decode_log history parse (ok last) (ok rows) chain_id from_block force_full replay
      right e =
    new_progress-IsReplayed decode_log history parse last rows chain_id from_block force_full
      (λ b g. right b rows (ap ok g) refl) e
begun_progress decode_log history parse (ok none) (err error) chain_id from_block force_full replay
      right e =
    subst (IsReplayed decode_log history from_block []) (ok_same e)
      (from_scratch decode_log history parse chain_id from_block)
begun_progress decode_log history parse (ok (some b)) (err error) chain_id from_block force_full
      replay right e =
    elim (Bool-cases (not force_full && leb from_block (saturating_add b 1))) [
      | inl resumed ↦ let e' = rw (resumed, new_progress, plan_sync) at e in absurd cc
      | inr forced ↦
          let e' = rw (forced, new_progress, plan_sync) at e in
          subst (IsReplayed decode_log history from_block []) (ok_same e')
            (from_scratch decode_log history parse chain_id from_block)
    ]
