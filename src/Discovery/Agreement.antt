-- ===== src/Discovery/Agreement.antt =====
-- The nodes in memory are those that a restart would load.
use nox_indexer.Prelude.{
  ℕ, ◌≤◌, ◌<◌, ◌≡◌, refl, sym, ap, Bool, true, false, Option, none, some, if◌then◌else◌,
}
use nox_indexer.Prelude.Text.{Text, text, text_eq, to_lowercase}
use nox_indexer.Prelude.Results.{Result, ok, err}
use nox_indexer.Prelude.Maps.{
  Map, get, put, get-put, get-remove, get-modify, text_eq_refl, option_map,
}
use nox_indexer.Registry.Events.{
  Address, ChainNodeEvent, registered, profile_changed, removed, unstaked,
}
use nox_indexer.Sync.Status.{i64_max}
use nox_indexer.Nodes.Status.{NodeStatus, online, offline, deregistered, is_deregistered, as_str}
use nox_indexer.Nodes.Targets.{IpAddr}
use nox_indexer.Nodes.State.{OnChainNode, NodeState, NodeRow, row_of, from_chain_info}
use nox_indexer.Nodes.Stored.{from_row-row_of}
use nox_indexer.Discovery.State.{
  AppState, upsert_node, deregister_node, deregistered_row, is_registered_row, loaded_row,
  load_registry_nodes,
}
use nox_indexer.Discovery.Live.{
  or_zero, kept_status, status_of, remove_chain_node, refresh_chain_node, process_chain_event,
}

pub as_str-apart :
    (s : NodeStatus) → is_deregistered s ≡ false → text_eq (as_str s) (text "deregistered") ≡ false
unfolding as_str
as_str-apart online e = refl
as_str-apart offline e = refl
as_str-apart deregistered e = e

pub kept_status-apart :
    (o : Option NodeStatus) (s : NodeStatus)
    → is_deregistered s ≡ false
    → is_deregistered (kept_status o s) ≡ false
kept_status-apart none s e = e
kept_status-apart (some online) s e = refl
kept_status-apart (some offline) s e = refl
kept_status-apart (some deregistered) s e = e

-- The role of a profile is a byte.
abbrev pub HasByteRole : Result (Option OnChainNode) → Type 0
HasByteRole (err error) = Unit
HasByteRole (ok none) = Unit
HasByteRole (ok (some info)) = info.role < 256

module _ (sha256 : Text → ℕ) (parse_ip : Text → Option IpAddr) (show_socket : IpAddr → ℕ → Text)
    (allow_private : Bool) (registry : Text) where
  abbrev loaded : Option NodeRow → Option NodeState
  loaded = loaded_row sha256 parse_ip show_socket allow_private registry

  abbrev pub with_status : ℕ → OnChainNode → NodeStatus → NodeState
  with_status id info s =
      record (from_chain_info sha256 parse_ip show_socket allow_private info id registry) {
        status = s;
      }

  registered_row :
      (info : OnChainNode) (id : ℕ) (s : NodeStatus)
      → is_deregistered s ≡ false
      → is_registered_row (row_of (with_status id info s)) ≡ true
  unfolding row_of
  registered_row info id s e = rw (as_str-apart s e) refl

  same_registry :
      (info : OnChainNode) (id : ℕ) (s : NodeStatus)
      → text_eq (row_of (with_status id info s)).registry_address (to_lowercase registry) ≡ true
  unfolding row_of from_chain_info
  same_registry info id s = text_eq_refl (to_lowercase registry)

  -- The row of a node from the chain loads the node, unless it is deregistered.
  pub loaded_row-row_of :
      (info : OnChainNode) (id : ℕ) (s : NodeStatus)
      → info.role < 256
      → id ≤ i64_max
      → is_deregistered s ≡ false
      → loaded (some (row_of (with_status id info s))) ≡ some (with_status id info s)
  loaded_row-row_of info id s r i e =
      rw (registered_row info id s e, same_registry info id s, loaded_row)
        (ap some (from_row-row_of sha256 parse_ip show_socket allow_private info id registry s r i))

  -- At an address, memory holds what a restart would load for the registry.
  abbrev pub AgreesAt : Text → AppState → Type 0
  AgreesAt a state =
      get a state.nodes
      ≡ load_registry_nodes sha256 parse_ip show_socket allow_private registry state.db.nodes a

  put_agrees :
      (b : Bool) (node : NodeState) (row : NodeRow) (n : Option NodeState) (r : Option NodeRow)
      → n ≡ loaded r
      → loaded (some row) ≡ some node
      → (if b then some node else n) ≡ loaded (if b then some row else r)
  put_agrees true node row n r e h = sym h
  put_agrees false node row n r e h = e

  pub stored_agrees :
      (a : Text) (node : NodeState) (nodes : Map NodeState) (rows : Map NodeRow)
      → get a nodes ≡ loaded (get a rows)
      → loaded (some (row_of node)) ≡ some node
      → get a (put node.address node nodes) ≡ loaded (get a (upsert_node node rows))
  unfolding upsert_node
  stored_agrees a node nodes rows e h =
      rw (get-put a node.address node nodes, get-put a node.address (row_of node) rows)
        (put_agrees (text_eq a node.address) node (row_of node) (get a nodes) (get a rows) e h)

  remove_agrees :
      (b : Bool) (n : Option NodeState) (r : Option NodeRow)
      → n ≡ loaded r
      → (if b then none else n) ≡ loaded (if b then option_map deregistered_row r else r)
  remove_agrees true n none e = refl
  remove_agrees true n (some row) e = refl
  remove_agrees false n r e = e

  module _ (a : Text) (show_address : Address → Text) where
    remove_chain_node-AgreesAt :
        (address : Address) (refused : Option Text) (state : AppState)
        → AgreesAt a state
        → AgreesAt a (remove_chain_node show_address address refused state)
    unfolding remove_chain_node deregister_node load_registry_nodes
    remove_chain_node-AgreesAt address (some error) state h = h
    remove_chain_node-AgreesAt address none state h =
        rw
          (
            get-remove a (show_address address) state.nodes,
            get-modify a (show_address address) deregistered_row state.db.nodes,
          )
          (remove_agrees (text_eq a (show_address address)) (get a state.nodes)
            (get a state.db.nodes) h)

    refresh_chain_node-AgreesAt :
        (info : Result (Option OnChainNode)) (refused : Option Text) (state : AppState)
        → HasByteRole info
        → or_zero state.sync.chain_id ≤ i64_max
        → AgreesAt a state
        → AgreesAt a (
            refresh_chain_node show_address sha256 parse_ip show_socket allow_private registry info
              refused state)
    unfolding refresh_chain_node load_registry_nodes
    refresh_chain_node-AgreesAt (err error) refused state r i h = h
    refresh_chain_node-AgreesAt (ok none) refused state r i h = h
    refresh_chain_node-AgreesAt (ok (some info)) (some error) state r i h = h
    refresh_chain_node-AgreesAt (ok (some info)) none state r i h =
        let id = or_zero state.sync.chain_id in
        let kept = kept_status (status_of (get (to_lowercase info.address) state.nodes)) offline in
        stored_agrees a (with_status id info kept) state.nodes state.db.nodes h (
          loaded_row-row_of info id kept r i (
            kept_status-apart (status_of (get (to_lowercase info.address) state.nodes)) offline
              refl))

    -- If at an address memory holds what a restart would load, it does so after every live event,
    -- whatever the chain answers and whether the database refuses a statement. The role of the
    -- profile is a byte and the chain id is within an i64.
    pub process_chain_event-AgreesAt :
        (event : ChainNodeEvent) (info : Result (Option OnChainNode)) (refused : Option Text)
        (state : AppState)
        → HasByteRole info
        → or_zero state.sync.chain_id ≤ i64_max
        → AgreesAt a state
        → AgreesAt a (
            process_chain_event show_address sha256 parse_ip show_socket allow_private registry
              event info refused state)
    unfolding process_chain_event
    process_chain_event-AgreesAt (registered address) info refused state r i h =
        refresh_chain_node-AgreesAt info refused state r i h
    process_chain_event-AgreesAt (profile_changed address) info refused state r i h =
        refresh_chain_node-AgreesAt info refused state r i h
    process_chain_event-AgreesAt (removed address) info refused state r i h =
        remove_chain_node-AgreesAt address refused state h
    process_chain_event-AgreesAt (unstaked address amount) info refused state r i h =
        remove_chain_node-AgreesAt address refused state h
