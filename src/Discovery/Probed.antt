-- ===== src/Discovery/Probed.antt =====
-- The nodes in memory stay those that a restart would load when an uptime check changes a status.
use nox_indexer.Prelude.{
  ℕ, ◌≡◌, refl, sym, ap, ◌∙◌, inl, inr, Bool, true, false, ◌&&◌, Option, none, some, if◌then◌else◌,
  Bool-cases,
}
use nox_indexer.Prelude.Text.{Text, text_eq, text_eq_iff, to_lowercase}
use nox_indexer.Prelude.Maps.{get, get-modify, option_map}
use nox_indexer.Nodes.Status.{NodeStatus, is_deregistered, as_str}
use nox_indexer.Nodes.Targets.{IpAddr}
use nox_indexer.Nodes.State.{NodeState, NodeRow, from_row}
use nox_indexer.Nodes.Stored.{from_str-as_str}
use nox_indexer.Discovery.State.{
  AppState, update_node_status, is_registered_row, loaded_row, load_registry_nodes,
}
use nox_indexer.Discovery.Live.{probed_status, needs_update, status_written, apply_status_change}
use nox_indexer.Discovery.Agreement.{AgreesAt, as_str-apart}

and_right : (a b : Bool) → (a && b) ≡ true → b ≡ true
and_right true b e = e
and_right false b e = cc

module _ (sha256 : Text → ℕ) (parse_ip : Text → Option IpAddr) (show_socket : IpAddr → ℕ → Text)
    (allow_private : Bool) (registry : Text) where
  abbrev loaded : Option NodeRow → Option NodeState
  loaded = loaded_row sha256 parse_ip show_socket allow_private registry

  from_row-status :
      (row : NodeRow) (s : NodeStatus)
      → from_row sha256 parse_ip show_socket allow_private (record row { status = as_str s })
        ≡ record (from_row sha256 parse_ip show_socket allow_private row) { status = s }
  unfolding from_row
  from_row-status row s = rw (from_str-as_str s) refl

  updated_row :
      (b : Bool) (new_status : NodeStatus) (node : NodeState) (row : NodeRow)
      → is_deregistered new_status ≡ false
      → is_registered_row row && text_eq row.registry_address (to_lowercase registry) ≡ b
      → some node ≡ loaded (some row)
      → some (record node { status = new_status })
        ≡ loaded (some (record row { status = as_str new_status }))
  updated_row true new_status node row apart e h =
      let h' = rw (e, loaded_row) at h in
      let same = text_eq row.registry_address (to_lowercase registry) in
      let right : same ≡ true = and_right (is_registered_row row) same e in
      rw (as_str-apart new_status apart, right, loaded_row)
        (ap (option_map (λ (n : NodeState). record n { status = new_status })) h'
          ∙ ap some (sym (from_row-status row new_status)))
  updated_row false new_status node row apart e h = let h' = rw (e, loaded_row) at h in absurd cc

  updated_agrees :
      (new_status : NodeStatus) (n : Option NodeState) (r : Option NodeRow)
      → is_deregistered new_status ≡ false
      → needs_update n new_status ≡ true
      → n ≡ loaded r
      → option_map (λ (node : NodeState). record node { status = new_status }) n
        ≡ loaded (option_map (λ (row : NodeRow). record row { status = as_str new_status }) r)
  updated_agrees new_status none r apart e h = absurd cc
  updated_agrees new_status (some node) none apart e h = absurd cc
  updated_agrees new_status (some node) (some row) apart e h =
      updated_row (is_registered_row row && text_eq row.registry_address (to_lowercase registry))
        new_status node row apart refl h

  modified_agrees :
      (b : Bool) (new_status : NodeStatus) (n : Option NodeState) (r : Option NodeRow)
      → is_deregistered new_status ≡ false
      → (b ≡ true → needs_update n new_status ≡ true)
      → n ≡ loaded r
      → (if b then option_map (λ (node : NodeState). record node { status = new_status }) n else n)
        ≡ loaded (
            if b
            then option_map (λ (row : NodeRow). record row { status = as_str new_status }) r
            else r)
  modified_agrees true new_status n r apart e h = updated_agrees new_status n r apart (e refl) h
  modified_agrees false new_status n r apart e h = h

  probed_status-apart : (reachable : Bool) → is_deregistered (probed_status reachable) ≡ false
  probed_status-apart true = refl
  probed_status-apart false = refl

  status_written-AgreesAt :
      (a address : Text) (reachable : Bool) (refused : Option Text) (state : AppState)
      → needs_update (get address state.nodes) (probed_status reachable) ≡ true
      → AgreesAt sha256 parse_ip show_socket allow_private registry a state
      → AgreesAt sha256 parse_ip show_socket allow_private registry a
          (status_written address (probed_status reachable) refused state).0
  unfolding status_written load_registry_nodes update_node_status
  status_written-AgreesAt a address reachable (some error) state e h = h
  status_written-AgreesAt a address reachable none state e h =
      rw
        (
          get-modify a address
              (λ (node : NodeState). record node { status = probed_status reachable }) state.nodes,
          get-modify a address
              (λ (row : NodeRow). record row { status = as_str (probed_status reachable) })
              state.db.nodes,
        )
        (modified_agrees (text_eq a address) (probed_status reachable) (get a state.nodes)
          (get a state.db.nodes) (probed_status-apart reachable)
          (λ same. rw ((text_eq_iff a address).0 same) e) h)

  -- If at an address memory holds what a restart would load, it does so after an uptime check of any
  -- node, whether the database refuses the statement.
  pub apply_status_change-AgreesAt :
      (a address : Text) (reachable : Bool) (refused : Option Text) (state : AppState)
      → AgreesAt sha256 parse_ip show_socket allow_private registry a state
      → AgreesAt sha256 parse_ip show_socket allow_private registry a
          (apply_status_change address reachable refused state).0
  unfolding apply_status_change
  apply_status_change-AgreesAt a address reachable refused state h =
      elim (Bool-cases (needs_update (get address state.nodes) (probed_status reachable))) [
        | inl e ↦
            rw (e, apply_status_change)
              (status_written-AgreesAt a address reachable refused state e h)
        | inr e ↦ rw (e, apply_status_change) h
      ]
