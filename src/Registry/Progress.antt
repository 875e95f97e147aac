-- ===== src/Registry/Progress.antt =====
-- `new_progress` of src/chain/discovery.rs: where a sync begins. What the database answers is an
-- argument, and so is the parser of stored addresses, which is not under the repository.
use nox_indexer.Prelude.{ℕ, Bool, Option, none, some, List, [], ◌∷◌}
use nox_indexer.Prelude.Text.{Text, text}
use nox_indexer.Prelude.Results.{Result, ok, ◌>>=◌, labelled}
use nox_indexer.Registry.Events.{Address, insert}
use nox_indexer.Registry.Replay.{SyncPlan, full, resume, start, plan_sync, ReplayProgress}

-- `.filter_map(|a| a.parse().ok()).collect::<HashSet<_>>()`
unfoldable pub collect_members : (Text → Option Address) → List Text → List Address
collect_members parse [] = []
collect_members parse (t ∷ ts) =
    let rest = collect_members parse ts in
    elim (parse t) [ none ↦ rest | some a ↦ (insert a rest).0 ]

-- The members that a plan begins with.
unfoldable pub initial_members :
    (Text → Option Address) → SyncPlan → Result (List Text) → Result (List Address)
unfolding collect_members
initial_members parse (full from) stored = ok []
initial_members parse (resume from) stored = do
  addresses ← labelled (text "load registry members: ") stored
  ok (collect_members parse addresses)

unfoldable pub new_progress :
    (Text → Option Address)
    → Result (Option ℕ)
    → Result (List Text)
    → ℕ
    → ℕ
    → Bool
    → Result ReplayProgress
unfolding initial_members
new_progress parse checkpoint stored chain_id from_block force_full = do
  checkpoint' ← labelled (text "load checkpoint: ") checkpoint
  let plan = plan_sync checkpoint' from_block force_full
  members ← initial_members parse plan stored
  ok (record { chain_id = chain_id; plan = plan; next_block = start plan; members = members })
