-- ===== src/Discovery/Reconciled.antt =====
-- What a reconciliation leaves behind.
use Prim.Native.Nat
use nox_indexer.Prelude.{ℕ, suc, ◌%◌, ◌≤◌, ◌≡◌, refl, sym, ◌∙◌, Bool, Option, none, some, List, []}
use nox_indexer.Prelude.Words.{u64_mod}
use nox_indexer.Prelude.Int.{ℤ}
use nox_indexer.Prelude.Text.{Text, to_lowercase}
use nox_indexer.Prelude.Results.{Result, ok, err}
use nox_indexer.Prelude.Maps.{keys, Map, get, get-map_entries, option_map}
use nox_indexer.Registry.Events.{Address}
use nox_indexer.Sync.Status.{mark_synced, i64_max}
use nox_indexer.Nodes.Targets.{IpAddr}
use nox_indexer.Nodes.State.{OnChainNode, NodeState, NodeRow, row_of}
use nox_indexer.Discovery.State.{
  AppState, get_checkpoint, deregister_nodes_except, is_kept, pruned, loaded_row,
  load_registry_nodes,
}
use nox_indexer.Discovery.Agreement.{AgreesAt, HasByteRole}
use nox_indexer.Discovery.Reconcile.{
  previous, sort, with_fresh, after_prune, after_persist, reconcile_from, reconcile_membership,
}
use nox_indexer.Discovery.Rows.{
  get_checkpoint-set_checkpoint, LowerKeys, is_there, is_kept-keys, dropped, kept_row,
}
use nox_indexer.Discovery.Persisted.{
  Backed, ByteRoles, persisted, persist-Backed, profiles_of, collect_profiles-ByteRoles,
}

module _ (sha256 : Text → ℕ) (parse_ip : Text → Option IpAddr) (show_socket : IpAddr → ℕ → Text)
    (allow_private : Bool) (registry : Text) where
  abbrev loaded : Option NodeRow → Option NodeState
  loaded = loaded_row sha256 parse_ip show_socket allow_private registry

  module _ (fetch_node_info : Address → Result (Option OnChainNode))
      (refuse_node : Text → Option Text) (refuse_prune refuse_checkpoint : Option Text) where
    -- After success memory is what a restart would load, the checkpoint is the block and the sync is
    -- marked; after a failure nothing that is served changed, nor did the checkpoint.
    abbrev pub IsReconciled : Text → ℕ → ℕ → Bool → ℤ → AppState → AppState × Option Text → Type 0
    IsReconciled a id block verdict now_ms before (after, none) =
        AgreesAt sha256 parse_ip show_socket allow_private registry a after
        × (get_checkpoint id registry after.db.checkpoints ≡ some (Nat.min block i64_max))
        × (after.sync ≡ mark_synced block verdict now_ms before.sync)
        × (after.topology_version ≡ suc before.topology_version % u64_mod)
    IsReconciled a id block verdict now_ms before (after, some error) =
        (after.nodes ≡ before.nodes)
        × (after.metrics ≡ before.metrics)
        × (after.sync ≡ before.sync)
        × (after.topology_version ≡ before.topology_version)
        × (after.db.checkpoints ≡ before.db.checkpoints)

    pruned_agrees :
        (a : Text) (rows : Map NodeRow) (fresh : Map NodeState) (f : Option NodeState)
        (r : Option NodeRow)
        → get a fresh ≡ f
        → get a rows ≡ r
        → is_kept (keys fresh) a ≡ is_there f
        → Backed sha256 parse_ip show_socket allow_private registry a rows fresh
        → f ≡ loaded (option_map (pruned (keys fresh) a) r)
    pruned_agrees a rows fresh none r ef er k back =
        sym (dropped sha256 parse_ip show_socket allow_private registry (keys fresh) a r k)
    pruned_agrees a rows fresh (some n) r ef er k back =
        let (stands, loads) = back n ef in
        let row : r ≡ some (row_of n) = sym er ∙ stands in
        rw
          (
            row,
            kept_row sha256 parse_ip show_socket allow_private registry (keys fresh) a (row_of n) k,
          )
          (sym loads)

    after_persist-IsReconciled :
        (a : Text) (id block : ℕ) (verdict : Bool) (now_ms : ℤ) (rows : Map NodeRow)
        (fresh : Map NodeState) (refused prune checkpoint : Option Text) (state : AppState)
        → to_lowercase a ≡ a
        → Backed sha256 parse_ip show_socket allow_private registry a rows fresh × LowerKeys fresh
        → IsReconciled a id block verdict now_ms state (
            after_persist sha256 parse_ip show_socket allow_private registry fetch_node_info
              refuse_node refuse_prune checkpoint id block verdict now_ms rows fresh refused prune
              state)
    unfolding after_persist after_prune with_fresh deregister_nodes_except load_registry_nodes
    after_persist-IsReconciled a id block verdict now_ms rows fresh (some error) prune checkpoint
          state low h =
        (refl, refl, refl, refl, refl)
    after_persist-IsReconciled a id block verdict now_ms rows fresh none (some error) checkpoint
          state low h =
        (refl, refl, refl, refl, refl)
    after_persist-IsReconciled a id block verdict now_ms rows fresh none none (some error) state low
          h =
        (refl, refl, refl, refl, refl)
    after_persist-IsReconciled a id block verdict now_ms rows fresh none none none state low h = (
      rw (get-map_entries a (pruned (keys fresh)) rows) (
          pruned_agrees a rows fresh (get a fresh) (get a rows) refl refl
            (is_kept-keys a fresh low h.1) h.0),
      get_checkpoint-set_checkpoint id block registry state.db.checkpoints,
      refl,
      refl,
    )

    reconcile_from-IsReconciled :
        (a : Text) (id block : ℕ) (verdict : Bool) (now_ms : ℤ)
        (profiles : Result (List (Option OnChainNode))) (state : AppState)
        → to_lowercase a ≡ a
        → id ≤ i64_max
        → ((ps : List (Option OnChainNode))
            → profiles ≡ ok ps
            → ByteRoles sha256 parse_ip show_socket allow_private registry ps)
        → IsReconciled a id block verdict now_ms state (
            reconcile_from sha256 parse_ip show_socket allow_private registry fetch_node_info
              refuse_node refuse_prune refuse_checkpoint id block verdict now_ms profiles state)
    unfolding reconcile_from get
    reconcile_from-IsReconciled a id block verdict now_ms (err error) state low i roles =
        (refl, refl, refl, refl, refl)
    reconcile_from-IsReconciled a id block verdict now_ms (ok profiles) state low i roles =
        let answer =
          persisted sha256 parse_ip show_socket allow_private registry fetch_node_info refuse_node
            refuse_prune refuse_checkpoint id (previous state.nodes) profiles state.db.nodes [] in
        after_persist-IsReconciled a id block verdict now_ms answer.0 (answer.1).0 (answer.1).1
          refuse_prune refuse_checkpoint state low
          (persist-Backed sha256 parse_ip show_socket allow_private registry fetch_node_info
            refuse_node refuse_prune refuse_checkpoint a id (previous state.nodes) profiles
            state.db.nodes [] i (roles profiles refl) (λ n e. cc, tt))

    -- A reconciliation whose profiles have roles of a byte, on a chain whose id is within an i64. If
    -- it succeeds, at every lower-case address memory holds what a restart would load, the
    -- checkpoint is the block, and the sync and the topology version are moved on; if it ends with an
    -- error, of a profile or of the database, the nodes and metrics in memory, the status,
    -- the topology version and the checkpoints are those from before.
    pub reconcile_membership-IsReconciled :
        (a : Text) (id : ℕ) (members : List Address) (block : ℕ) (verdict : Bool) (now_ms : ℤ)
        (state : AppState)
        → to_lowercase a ≡ a
        → id ≤ i64_max
        → ((address : Address) → HasByteRole (fetch_node_info address))
        → IsReconciled a id block verdict now_ms state (
            reconcile_membership sha256 parse_ip show_socket allow_private registry fetch_node_info
              refuse_node refuse_prune refuse_checkpoint id members block verdict now_ms state)
    unfolding reconcile_membership
    reconcile_membership-IsReconciled a id members block verdict now_ms state low i roles =
        reconcile_from-IsReconciled a id block verdict now_ms
          (profiles_of sha256 parse_ip show_socket allow_private registry fetch_node_info
            refuse_node refuse_prune refuse_checkpoint (sort members))
          state low i
          (collect_profiles-ByteRoles sha256 parse_ip show_socket allow_private registry
            fetch_node_info refuse_node refuse_prune refuse_checkpoint (sort members) roles)
