-- ===== src/Discovery/Persisted.antt =====
-- The loop of a reconciliation over the profiles.
use nox_indexer.Prelude.{
  ℕ, ◌≤◌, ◌<◌, ◌≡◌, refl, subst, inl, inr, Bool, true, false, Option, none, some, List, [], ◌∷◌,
  if◌then◌else◌, Option-cases,
}
use nox_indexer.Prelude.Text.{Text, text_eq, to_lowercase, to_lowercase-idempotent}
use nox_indexer.Prelude.Results.{Result, ok, err, ◌>>=◌}
use nox_indexer.Prelude.Maps.{Map, get, put, get-put}
use nox_indexer.Registry.Events.{Address}
use nox_indexer.Sync.Status.{i64_max}
use nox_indexer.Nodes.Status.{NodeStatus, offline}
use nox_indexer.Nodes.Targets.{IpAddr}
use nox_indexer.Nodes.State.{OnChainNode, NodeState, NodeRow, row_of, from_chain_info}
use nox_indexer.Discovery.State.{upsert_node, loaded_row}
use nox_indexer.Discovery.Live.{kept_status}
use nox_indexer.Discovery.Agreement.{HasByteRole, with_status, loaded_row-row_of, kept_status-apart}
use nox_indexer.Discovery.Reconcile.{collect_profiles, persist}
use nox_indexer.Discovery.Rows.{LowerKeys, LowerKeys-remove}

ok_same {ℓ} : {A : Type ℓ} {a b : A} → ok a ≡ ok b → a ≡ b
ok_same e = cc

module _ (sha256 : Text → ℕ) (parse_ip : Text → Option IpAddr) (show_socket : IpAddr → ℕ → Text)
    (allow_private : Bool) (registry : Text) where
  abbrev loaded : Option NodeRow → Option NodeState
  loaded = loaded_row sha256 parse_ip show_socket allow_private registry

  -- A fresh node stands in its row, which loads it.
  abbrev pub Backed : Text → Map NodeRow → Map NodeState → Type 0
  Backed a rows fresh =
      (n : NodeState)
      → get a fresh ≡ some n
      → (get a rows ≡ some (row_of n)) × (loaded (some (row_of n)) ≡ some n)

  abbrev pub ByteRoles : List (Option OnChainNode) → Type 0
  ByteRoles [] = Unit
  ByteRoles (none ∷ rest) = ByteRoles rest
  ByteRoles (some info ∷ rest) = (info.role < 256) × ByteRoles rest

  put_backed :
      (b : Bool) (a : Text) (node : NodeState) (n : NodeState) (f : Option NodeState)
      (r : Option NodeRow)
      → loaded (some (row_of node)) ≡ some node
      → (f ≡ some n → (r ≡ some (row_of n)) × (loaded (some (row_of n)) ≡ some n))
      → (if b then some node else f) ≡ some n
      → ((if b then some (row_of node) else r) ≡ some (row_of n))
        × (loaded (some (row_of n)) ≡ some n)
  put_backed true a node n f r h back e =
      let same : node ≡ n = cc in
      subst (λ m. (some (row_of node) ≡ some (row_of m)) × (loaded (some (row_of m)) ≡ some m)) same
        (refl, h)
  put_backed false a node n f r h back e = back e

  upsert-Backed :
      (a : Text) (node : NodeState) (rows : Map NodeRow) (fresh : Map NodeState)
      → loaded (some (row_of node)) ≡ some node
      → Backed a rows fresh
      → Backed a (upsert_node node rows) (put node.address node fresh)
  unfolding upsert_node
  upsert-Backed a node rows fresh h back n =
      rw (get-put a node.address node fresh, get-put a node.address (row_of node) rows)
        (put_backed (text_eq a node.address) a node n (get a fresh) (get a rows) h (back n))

  module _ (fetch_node_info : Address → Result (Option OnChainNode))
      (refuse_node : Text → Option Text) (refuse_prune refuse_checkpoint : Option Text) where
    abbrev pub persisted :
        ℕ
        → Map NodeStatus
        → List (Option OnChainNode)
        → Map NodeRow
        → Map NodeState
        → Map NodeRow × (Map NodeState × Option Text)
    persisted =
        persist sha256 parse_ip show_socket allow_private registry fetch_node_info refuse_node
          refuse_prune refuse_checkpoint

    pub persist-Backed :
        (a : Text) (id : ℕ) (before : Map NodeStatus) (profiles : List (Option OnChainNode))
        (rows : Map NodeRow) (fresh : Map NodeState)
        → id ≤ i64_max
        → ByteRoles profiles
        → Backed a rows fresh × LowerKeys fresh
        → Backed a
            (persisted id before profiles rows fresh).0
            ((persisted id before profiles rows fresh).1).0
          × LowerKeys ((persisted id before profiles rows fresh).1).0
    unfolding persist from_chain_info put
    persist-Backed a id before [] rows fresh i roles h = h
    persist-Backed a id before (none ∷ rest) rows fresh i roles h =
        persist-Backed a id before rest rows fresh i roles h
    persist-Backed a id before (some info ∷ rest) rows fresh i roles h =
        let key = to_lowercase info.address in
        let kept = kept_status (get key before) offline in
        let node = with_status sha256 parse_ip show_socket allow_private registry id info kept in
        let loads =
          loaded_row-row_of sha256 parse_ip show_socket allow_private registry info id kept roles.0
            i (kept_status-apart (get key before) offline refl) in
        elim (Option-cases (refuse_node key)) [
          | inl e ↦
              rw (e, persist)
                (persist-Backed a id before rest (upsert_node node rows) (put key node fresh) i
                  roles.1
                  (
                    upsert-Backed a node rows fresh loads h.0,
                    (to_lowercase-idempotent info.address, LowerKeys-remove key fresh h.1),
                  ))
          | inr (error, e) ↦ rw (e, persist) h
        ]

    abbrev pub profiles_of : List Address → Result (List (Option OnChainNode))
    profiles_of =
        collect_profiles sha256 parse_ip show_socket allow_private registry fetch_node_info
          refuse_node refuse_prune refuse_checkpoint

    collected :
        (address : Address) (rest : List Address) (first : Result (Option OnChainNode))
        (later : Result (List (Option OnChainNode))) {profiles : List (Option OnChainNode)}
        → HasByteRole first
        → ((ps : List (Option OnChainNode)) → later ≡ ok ps → ByteRoles ps)
        → (do info ← first; infos ← later; ok (info ∷ infos)) ≡ ok profiles
        → ByteRoles profiles
    collected address rest (err error) later b h e = absurd cc
    collected address rest (ok info) (err error) b h e = absurd cc
    collected address rest (ok none) (ok infos) b h e = subst ByteRoles (ok_same e) (h infos refl)
    collected address rest (ok (some info)) (ok infos) b h e =
        subst ByteRoles (ok_same e) (b, h infos refl)

    pub collect_profiles-ByteRoles :
        (addresses : List Address)
        → ((address : Address) → HasByteRole (fetch_node_info address))
        → (profiles : List (Option OnChainNode)) → profiles_of addresses ≡ ok profiles
        → ByteRoles profiles
    unfolding collect_profiles
    collect_profiles-ByteRoles [] h profiles e = subst ByteRoles (ok_same e) tt
    collect_profiles-ByteRoles (address ∷ rest) h profiles e =
        collected address rest (fetch_node_info address) (profiles_of rest) (h address)
          (collect_profiles-ByteRoles rest h) e
