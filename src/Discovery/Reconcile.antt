-- ===== src/Discovery/Reconcile.antt =====
-- `reconcile_membership` of src/chain/discovery.rs. The profiles after their retries and what the
-- database refuses are arguments; `now_ms` is the time at the end.
use nox_indexer.Prelude.{ℕ, ltb, Bool, true, Option, none, some, List, [], ◌∷◌, ◌++◌, if◌then◌else◌}
use nox_indexer.Prelude.Int.{ℤ}
use nox_indexer.Prelude.Text.{Text, text, to_lowercase}
use nox_indexer.Prelude.Results.{Result, ok, err, ◌>>=◌}
use nox_indexer.Prelude.Maps.{Map, get, put, keys, has_key}
use nox_indexer.Registry.Events.{Address}
use nox_indexer.Sync.Status.{mark_synced}
use nox_indexer.Nodes.Status.{NodeStatus}
use nox_indexer.Nodes.Targets.{IpAddr}
use nox_indexer.Nodes.State.{OnChainNode, NodeState, NodeRow, from_chain_info}
use nox_indexer.Discovery.State.{
  AppState, bump_topology_version, upsert_node, deregister_nodes_except, set_checkpoint,
}
use nox_indexer.Discovery.Live.{kept_status}

-- `ordered.sort()`
unfoldable pub insert_address : Address → List Address → List Address
insert_address a [] = a ∷ []
insert_address a (b ∷ rest) = if ltb b a then b ∷ insert_address a rest else a ∷ b ∷ rest

unfoldable pub sort : List Address → List Address
unfolding insert_address
sort [] = []
sort (a ∷ rest) = insert_address a (sort rest)

-- The status of every node in memory, by its lower-case address.
unfoldable pub previous : Map NodeState → Map NodeStatus
previous [] = []
previous ((address, node) ∷ rest) = (to_lowercase address, node.status) ∷ previous rest

-- `metrics.retain(|address, _| keep.contains(address))`
unfoldable pub retain {ℓ} : {V : Type ℓ} → List Text → Map V → Map V
unfolding has_key
retain keep [] = []
retain keep ((k, v) ∷ rest) =
    let others = retain keep rest in if has_key keep k then (k, v) ∷ others else others

module _ (sha256 : Text → ℕ) (parse_ip : Text → Option IpAddr) (show_socket : IpAddr → ℕ → Text)
    (allow_private : Bool) (registry_hex : Text)
    (fetch_node_info : Address → Result (Option OnChainNode)) (refuse_node : Text → Option Text)
    (refuse_prune refuse_checkpoint : Option Text) where
  -- Every profile, or the error of the first that could not be read.
  unfoldable pub collect_profiles : List Address → Result (List (Option OnChainNode))
  collect_profiles [] = ok []
  collect_profiles (address ∷ rest) = do
    info ← fetch_node_info address
    infos ← collect_profiles rest
    ok (info ∷ infos)

  -- The node with the status that it had, unless that is deregistered.
  abbrev pub fresh_node : ℕ → Map NodeStatus → OnChainNode → NodeState
  fresh_node chain_id before info =
      let node =
        from_chain_info sha256 parse_ip show_socket allow_private info chain_id registry_hex in
      record node { status = kept_status (get node.address before) node.status }

  -- The loop over the profiles: the rows and the fresh nodes, with the database's refusal if there is
  -- one.
  unfoldable pub persist :
      ℕ
      → Map NodeStatus
      → List (Option OnChainNode)
      → Map NodeRow
      → Map NodeState
      → Map NodeRow × (Map NodeState × Option Text)
  unfolding upsert_node from_chain_info
  persist chain_id before [] rows fresh = (rows, (fresh, none))
  persist chain_id before (none ∷ rest) rows fresh = persist chain_id before rest rows fresh
  persist chain_id before (some info ∷ rest) rows fresh =
      let node = fresh_node chain_id before info in
      let more =
        persist chain_id before rest (upsert_node node rows) (put node.address node fresh) in
      elim (refuse_node node.address) [
        | none ↦ more
        | some error ↦
            (rows, (fresh, some (text "persist node " ++ node.address ++ text ": " ++ error)))
      ]

  abbrev pub with_rows : Map NodeRow → AppState → AppState
  with_rows rows state = record state { db = record state.db { nodes = rows } }

  abbrev pub with_checkpoint : ℕ → ℕ → AppState → AppState
  with_checkpoint chain_id block state = record state {
    db = record state.db {
      checkpoints = set_checkpoint chain_id registry_hex block state.db.checkpoints;
    };
  }

  -- What is served from memory after a reconciliation that the database took.
  unfoldable pub with_fresh : Map NodeState → ℕ → Bool → ℤ → AppState → AppState
  unfolding mark_synced bump_topology_version retain keys
  with_fresh fresh block verified now_ms state = bump_topology_version (record state {
    nodes = fresh;
    metrics = retain (keys fresh) state.metrics;
    sync = mark_synced block verified now_ms state.sync;
    probe_now = true;
  })

  unfoldable pub after_prune :
      ℕ → ℕ → Bool → ℤ → Map NodeState → Option Text → AppState → AppState × Option Text
  unfolding set_checkpoint with_fresh
  after_prune chain_id block verified now_ms fresh (some error) state =
      (state, some (text "persist checkpoint: " ++ error))
  after_prune chain_id block verified now_ms fresh none state =
      (with_fresh fresh block verified now_ms (with_checkpoint chain_id block state), none)

  unfoldable pub after_persist :
      ℕ
      → ℕ
      → Bool
      → ℤ
      → Map NodeRow
      → Map NodeState
      → Option Text
      → Option Text
      → AppState
      → AppState × Option Text
  unfolding after_prune deregister_nodes_except keys
  after_persist chain_id block verified now_ms rows fresh (some error) prune state =
      (with_rows rows state, some error)
  after_persist chain_id block verified now_ms rows fresh none (some error) state =
      (with_rows rows state, some (text "deregister stale nodes: " ++ error))
  after_persist chain_id block verified now_ms rows fresh none none state =
      after_prune chain_id block verified now_ms fresh refuse_checkpoint
        (with_rows (deregister_nodes_except (keys fresh) rows) state)

  unfoldable pub reconcile_from :
      ℕ → ℕ → Bool → ℤ → Result (List (Option OnChainNode)) → AppState → AppState × Option Text
  unfolding persist after_persist previous
  reconcile_from chain_id block verified now_ms (err error) state = (state, some error)
  reconcile_from chain_id block verified now_ms (ok profiles) state =
      let (rows, (fresh, refused)) =
        persist chain_id (previous state.nodes) profiles state.db.nodes [] in
      after_persist chain_id block verified now_ms rows fresh refused refuse_prune state

  -- The state afterwards, and the error if there is one.
  unfoldable pub reconcile_membership :
      ℕ → List Address → ℕ → Bool → ℤ → AppState → AppState × Option Text
  unfolding collect_profiles sort reconcile_from
  reconcile_membership chain_id members block verified now_ms state =
      reconcile_from chain_id block verified now_ms (collect_profiles (sort members)) state
