-- ===== src/Seed/Build.antt =====
-- `build_seed_topology` and `/seed/topology` of src/api.rs. A map built by `collect` keeps the last
-- value of a key.
use nox_indexer.Prelude.{ℕ, Option, none, some, List, [], ◌∷◌, if◌then◌else◌}
use nox_indexer.Prelude.Int.{ℤ, pos, negsuc}
use nox_indexer.Prelude.Text.{Text, text, text_eq, is_empty, to_lowercase}
use nox_indexer.Prelude.Results.{Result, ok, err, ◌>>=◌, labelled}
use nox_indexer.Seed.Cache.{PinnedTopologyNode, NodeState, AppState, pinned_seed_members}
use nox_indexer.Nodes.Status.{NodeStatus, is_deregistered}
use nox_indexer.Seed.Snapshot.{NodeReport, SeedTopologySnapshot, assemble_seed_topology}

-- The value of the last entry of a key, the keys taken in lower case.
unfoldable pub last_entry {ℓ} : {V : Type ℓ} → Text → Option V → List (Text × V) → Option V
last_entry key found [] = found
last_entry key found ((address, v) ∷ rest) =
    last_entry key (if text_eq key (to_lowercase address) then some v else found) rest

unfoldable pub statuses_of : List NodeState → List (Text × NodeStatus)
statuses_of [] = []
statuses_of (node ∷ rest) =
    let others = statuses_of rest in
    if is_deregistered node.status then others else (node.address, node.status) ∷ others

-- What a node's own metrics say of it.
pub record NodeMetrics : Type 0 where
  pub capabilities : Option (List Text)
  pub build_version : Text

abbrev pub report_from : NodeMetrics → NodeReport
report_from metrics = record {
  capabilities = metrics.capabilities;
  build_version = if is_empty metrics.build_version then none else some metrics.build_version;
  pow_difficulty = none;
}

-- `entry(address).or_default().pow_difficulty = Some(difficulty)`
abbrev pub with_difficulty : Option NodeReport → Option ℕ → Option NodeReport
with_difficulty report none = report
with_difficulty none (some difficulty) =
    some (record { capabilities = none; build_version = none; pow_difficulty = some difficulty })
with_difficulty (some report) (some difficulty) =
    some (record report { pow_difficulty = some difficulty })

abbrev pub map_some {ℓ κ} : {A : Type ℓ} {B : Type κ} → (A → B) → Option A → Option B
map_some f none = none
map_some f (some a) = some (f a)

unfoldable pub report_of : List (Text × NodeMetrics) → List (Text × ℕ) → Text → Option NodeReport
unfolding last_entry
report_of metrics difficulties address =
    with_difficulty (map_some report_from (last_entry address none metrics))
      (last_entry address none difficulties)

-- `u64::try_from(timestamp)`
abbrev pub unix_time : ℤ → Result ℕ
unix_time (pos n) = ok n
unix_time (negsuc n) = err (text "system time is before Unix epoch")

module _ (pinned_topology_members : List Text → ℕ → Result (List PinnedTopologyNode × Text))
    (observed : Result (List (Text × ℕ))) (metrics : List (Text × NodeMetrics))
    (difficulties : List (Text × ℕ)) (max_pow_difficulty : ℕ) where
  -- `observed` is the database's answer; `now` and `later` are the times of the members' request.
  unfoldable pub build_seed_topology : AppState → ℕ → ℕ → ℤ → Result SeedTopologySnapshot
  unfolding pinned_seed_members statuses_of report_of assemble_seed_topology last_entry
  build_seed_topology state now later timestamp =
      let (members, state') = pinned_seed_members pinned_topology_members state now later in
      members >>= λ pinned. labelled (text "load liveness observations: ") observed >>= λ rows.
      unix_time timestamp >>= λ now_unix.
      assemble_seed_topology (λ address. last_entry address none (statuses_of state'.nodes))
        (λ address. last_entry address none rows) (report_of metrics difficulties) pinned.members
        pinned.fingerprint max_pow_difficulty pinned.block now_unix

abbrev pub unavailable : Text
unavailable = text "chain-verified topology unavailable"

-- `handle_seed_topology`: the code, and the snapshot or the public error.
unfoldable pub handle_seed_topology :
    Result SeedTopologySnapshot → ℕ × (Option SeedTopologySnapshot × Option Text)
handle_seed_topology (ok snapshot) = (200, (some snapshot, none))
handle_seed_topology (err error) = (503, (none, some unavailable))
