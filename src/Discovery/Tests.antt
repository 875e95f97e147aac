-- ===== src/Discovery/Tests.antt =====
-- A registry with one node: its event, its reconciliation, and a synchronisation.
use nox_indexer.Prelude.{
  ℕ, zero, suc, ◌+◌, ◌-◌, ◌≡◌, refl, sym, Bool, true, false, Option, none, some, List, [], ◌∷◌,
  ◌++◌, arith,
}
use nox_indexer.Prelude.Int.{pos}
use nox_indexer.Prelude.Text.{Text, text, to_lowercase}
use nox_indexer.Prelude.Results.{Result, ok}
use nox_indexer.Prelude.Maps.{get}
use nox_indexer.Fetch.Chunked.{Fetched, fetched}
use nox_indexer.Registry.Events.{Address, ChainNodeEvent, registered}
use nox_indexer.Registry.Fingerprint.{Bits, Disagreement}
use nox_indexer.Registry.Resume.{logs_of, IsFaithful}
use nox_indexer.Sync.Status.{SyncStatus, syncing}
use nox_indexer.Nodes.Targets.{IpAddr, v4}
use nox_indexer.Nodes.State.{OnChainNode}
use nox_indexer.Discovery.State.{AppState, load_registry_nodes}
use nox_indexer.Discovery.Live.{process_chain_event, apply_status_change}
use nox_indexer.Discovery.Agreement.{AgreesAt, process_chain_event-AgreesAt}
use nox_indexer.Discovery.Probed.{apply_status_change-AgreesAt}
use nox_indexer.Discovery.Reconcile.{reconcile_membership}
use nox_indexer.Discovery.Reconciled.{IsReconciled, reconcile_membership-IsReconciled}
use nox_indexer.Discovery.Initial.{sync_rounds}
use nox_indexer.Discovery.Synced.{IsSynced, IsStoredRight, sync_rounds-IsSynced}
use nox_indexer.Discovery.Start.{Outcome, rpc_failed}

abbrev address : Text
address = text "0xab00000000000000000000000000000000000001"

abbrev info : OnChainNode
info = record {
  address = address;
  url = text "/ip4/8.8.8.8/tcp/9000";
  ingress_url = [];
  metadata_url = [];
  sphinx_key = text "00";
  role = 3;
  frozen = false;
}

abbrev registry : Text
registry = text "0xc0"

abbrev sha256 : Text → ℕ
sha256 t = 7

abbrev parse_ip : Text → Option IpAddr
parse_ip t = some (v4 (record { a = 8; b = 8; c = 8; d = 8 }))

abbrev show_socket : IpAddr → ℕ → Text
show_socket ip port = text "8.8.8.8:9001"

abbrev show_address : Address → Text
show_address a = address

abbrev sync : SyncStatus
sync = record {
  phase = syncing;
  chain_id = some 10;
  registry_address = registry;
  last_block = none;
  scan_block = none;
  verified = none;
  attempts = 0;
  last_error = none;
  last_synced_at_ms = none;
  head_block = none;
}

abbrev nothing_yet : AppState
nothing_yet = record {
  db = record { nodes = []; checkpoints = [] };
  nodes = [];
  metrics = [];
  pow_difficulties = [];
  sync = sync;
  topology_version = 0;
  probe_now = false;
}

nothing_yet-AgreesAt : AgreesAt sha256 parse_ip show_socket false registry address nothing_yet
unfolding get load_registry_nodes
nothing_yet-AgreesAt = refl

abbrev with_node : AppState
with_node =
    process_chain_event show_address sha256 parse_ip show_socket false registry (registered 1)
      (ok (some info)) none nothing_yet

process_chain_event-AgreesAt_example :
    AgreesAt sha256 parse_ip show_socket false registry address with_node
process_chain_event-AgreesAt_example =
    process_chain_event-AgreesAt sha256 parse_ip show_socket false registry address show_address
      (registered 1) (ok (some info)) none nothing_yet (omega arith) (omega arith)
      nothing_yet-AgreesAt

apply_status_change-AgreesAt_example :
    AgreesAt sha256 parse_ip show_socket false registry address
      (apply_status_change address true none with_node).0
apply_status_change-AgreesAt_example =
    apply_status_change-AgreesAt sha256 parse_ip show_socket false registry address address true
      none with_node
      (process_chain_event-AgreesAt sha256 parse_ip show_socket false registry address show_address
        (registered 1) (ok (some info)) none nothing_yet (omega arith) (omega arith)
        nothing_yet-AgreesAt)

abbrev fetch_node_info : Address → Result (Option OnChainNode)
fetch_node_info a = ok (some info)

abbrev refuse_nothing : Text → Option Text
refuse_nothing t = none

lower_address : to_lowercase address ≡ address
unfolding to_lowercase
lower_address = refl

reconcile_membership-IsReconciled_example :
    IsReconciled sha256 parse_ip show_socket false registry fetch_node_info refuse_nothing none none
      address 10 7 true
      (pos 1)
      nothing_yet
      (reconcile_membership sha256 parse_ip show_socket false registry fetch_node_info
        refuse_nothing none none 10
        (1 ∷ [])
        7
        true
        (pos 1)
        nothing_yet)
reconcile_membership-IsReconciled_example =
    reconcile_membership-IsReconciled sha256 parse_ip show_socket false registry fetch_node_info
      refuse_nothing none none address 10 (1 ∷ []) 7 true (pos 1) nothing_yet lower_address
      (omega arith) (λ a. omega arith)

-- A log is the event itself. Block 1 registers the node.
abbrev decode : ChainNodeEvent → Option ChainNodeEvent
decode event = some event

abbrev history : ℕ → List ChainNodeEvent
history zero = []
history (suc zero) = registered 1 ∷ []
history (suc (suc n)) = []

abbrev fetch_block : ℕ → ℕ → ℕ → Fetched ChainNodeEvent × ℕ
fetch_block e from to = (fetched (history from ++ []) from, suc e)

fetch_block-IsFaithful : IsFaithful decode history fetch_block
unfolding logs_of
fetch_block-IsFaithful e e' from to logs end le h =
    let same : from ≡ end = cc in
    let are : history from ++ [] ≡ logs = cc in
    let one : end + 1 - from ≡ suc zero = omega (arith, same) in
    (omega (arith, same), omega (arith, same), rw one (sym are))

abbrev safe_head : ℕ → Result ℕ × ℕ
safe_head e = (ok 2, suc e)

abbrev hash : Address → Bits
hash a = true ∷ []

abbrev membership_at : ℕ → ℕ → Result (ℕ × Bits) × ℕ
membership_at e block = (ok (1, true ∷ []), suc e)

abbrev running : ℕ → Bool
running e = false

abbrev parse_one : Text → Option Address
parse_one t = some 1

stored_right :
    IsStoredRight decode history fetch_block safe_head hash membership_at running
      fetch_block-IsFaithful 0 parse_one
      (ok none)
      (ok [])
      10
      false
stored_right last rows e g = absurd cc

sync_rounds-IsSynced_example :
    IsSynced decode history fetch_block safe_head hash membership_at running fetch_block-IsFaithful
      0 parse_one
      (ok none)
      (ok [])
      10
      false
      (sync_rounds decode fetch_block safe_head hash membership_at running parse_one
        (ok none)
        (ok [])
        10
        0
        false
        false
        none
        0)
sync_rounds-IsSynced_example =
    sync_rounds-IsSynced decode history fetch_block safe_head hash membership_at running
      fetch_block-IsFaithful 0 parse_one (ok none) (ok []) 10 false false none 0 stored_right tt

abbrev answers : ℕ → ChainNodeEvent → (Result (Option OnChainNode) × Option Text) × ℕ
answers e event = ((ok (some info), none), suc e)

abbrev refuse_no_checkpoint : ℕ → Option Text × ℕ
refuse_no_checkpoint e = (none, suc e)

abbrev no_checkpoint : AppState → Result (Option ℕ)
no_checkpoint state = ok none

abbrev no_rows : AppState → Result (List Text)
no_rows state = ok []

abbrev reconcile : List Address → ℕ → Bool → AppState → AppState × Option Text
reconcile members block verdict state =
    reconcile_membership sha256 parse_ip show_socket false registry fetch_node_info refuse_nothing
      none none 10 members block verdict (pos 1) state

abbrev no_answer : Outcome ℕ
no_answer = rpc_failed (text "no chain id") none nothing_yet 0

abbrev describe : Disagreement → Text
describe reason = text "disagreement"
