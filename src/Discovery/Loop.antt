-- ===== src/Discovery/Loop.antt =====
-- `chain_event_loop` of src/chain/discovery.rs, one turn at a time. What the chain and the database
-- answer while an event is handled comes from the world outside, `E`; so does whether the process shuts
-- down. The times of a turn are arguments: whether a check is due, and whether a replay may be forced.
use nox_indexer.Prelude.{
  ℕ, zero, suc, ◌+◌, ◌-◌, ltb, leb, Bool, true, false, ◌&&◌, not, Option, none, some, List, [], ◌∷◌,
  if◌then◌else◌,
}
use nox_indexer.Prelude.Int.{ℤ}
use nox_indexer.Prelude.Text.{Text}
use nox_indexer.Prelude.Results.{Result, ok, err}
use nox_indexer.Prelude.Maps.{Map}
use nox_indexer.Fetch.Chunked.{Fetched, fetched, gave_up}
use nox_indexer.Registry.Events.{Address, ChainNodeEvent, insert}
use nox_indexer.Registry.Fingerprint.{Bits, Disagreement}
use nox_indexer.Sync.Status.{mark_caught_up, mark_checked}
use nox_indexer.Nodes.Status.{is_deregistered}
use nox_indexer.Nodes.Targets.{IpAddr}
use nox_indexer.Nodes.State.{OnChainNode, NodeState}
use nox_indexer.Discovery.State.{AppState, bump_topology_version, set_checkpoint}
use nox_indexer.Discovery.Live.{or_zero, process_chain_event}
use nox_indexer.Discovery.Retried.{verify_membership}

-- `MISMATCHES_BEFORE_RESYNC`
abbrev pub mismatches_before_resync : ℕ
mismatches_before_resync = 2

-- `should_force_resync`, of which `allowed` is the comparison of the times.
unfoldable pub should_force_resync : ℕ → Bool → Bool
should_force_resync mismatches allowed = leb mismatches_before_resync mismatches && allowed

-- What the inner loop ends with.
pub data Caught (E : Type 0) : Type 0 where
  caught : ℕ → Bool → AppState → E → Caught E
  stopped : AppState → E → Caught E

-- What a turn ends with: another turn from a block with a number of mismatches, or an exit.
pub data Turn (E : Type 0) : Type 0 where
  again : ℕ → ℕ → AppState → E → Turn E
  shutdown : AppState → E → Turn E
  resync : Disagreement → AppState → E → Turn E

-- The registered nodes in memory, as a set of addresses.
unfoldable pub live_members : (Text → Option Address) → Map NodeState → List Address
live_members parse [] = []
live_members parse ((address, node) ∷ rest) =
    let others = live_members parse rest in
    if is_deregistered node.status
    then others
    else elim (parse node.address) [ none ↦ others | some a ↦ (insert a others).0 ]

module _ (show_address : Address → Text) (sha256 : Text → ℕ) (parse_ip : Text → Option IpAddr)
    (show_socket : IpAddr → ℕ → Text) (allow_private : Bool) (registry_hex : Text) {E : Type 0}
    {Log : Type 0} (decode_log : Log → Option ChainNodeEvent)
    (fetch_logs_chunk : E → ℕ → ℕ → Fetched Log × E)
    (answers : E → ChainNodeEvent → (Result (Option OnChainNode) × Option Text) × E)
    (refuse_checkpoint : E → Option Text × E) (cancelled : E → Bool) where
  abbrev handled :
      ChainNodeEvent → (Result (Option OnChainNode) × Option Text) × E → AppState → AppState
  handled event ((info, refused), e) state =
      process_chain_event show_address sha256 parse_ip show_socket allow_private registry_hex event
        info refused state

  -- `for log in &logs { if let Some(event) = decode_log(log) { changed |= process(event) } }`
  unfoldable pub process_logs : List Log → Bool → AppState → E → AppState × (Bool × E)
  unfolding process_chain_event
  process_logs [] changed state e = (state, (changed, e))
  process_logs (log ∷ logs) changed state e = elim (decode_log log) [
    | none ↦ process_logs logs changed state e
    | some event ↦
        process_logs logs true (handled event (answers e event) state) (answers e event).1
  ]

  -- The checkpoint of an applied chunk; a refusal is only logged.
  unfoldable pub chunk_applied : ℕ → Option Text → AppState → AppState
  unfolding set_checkpoint
  chunk_applied end (some error) state = record state {
    sync = record state.sync { last_block = some end };
  }
  chunk_applied end none state = record state {
    db = record state.db {
      checkpoints =
          set_checkpoint (or_zero state.sync.chain_id) registry_hex end state.db.checkpoints;
    };
    sync = record state.sync { last_block = some end };
  }

  unfoldable pub after_chunk :
      (ℕ → Bool → AppState → E → Option (Caught E))
      → ℕ
      → Bool
      → AppState
      → Fetched Log × E
      → Option (Caught E)
  unfolding process_logs chunk_applied
  after_chunk next last_block changed state (gave_up error, e) =
      if cancelled e then some (stopped state e) else some (caught last_block changed state e)
  after_chunk next last_block changed state (fetched logs end, e) =
      let applied = process_logs logs changed state e in
      let refused = refuse_checkpoint (applied.1).1 in
      next end (applied.1).0 (chunk_applied end refused.0 applied.0) refused.1

  -- `while last_block < target`, on fuel; each chunk covers a block at least.
  unfoldable pub catch_up : ℕ → ℕ → ℕ → Bool → AppState → E → Option (Caught E)
  unfolding after_chunk
  catch_up zero target last_block changed state e = none
  catch_up (suc fuel) target last_block changed state e =
      let chunk =
        after_chunk (λ end changed' state' e'. catch_up fuel target end changed' state' e')
          last_block changed state (fetch_logs_chunk e (last_block + 1) target) in
      if ltb last_block target then chunk else some (caught last_block changed state e)

  module _ (parse : Text → Option Address) (keccak256 : Address → Bits)
      (membership_at : E → ℕ → Result (ℕ × Bits) × E) (due allowed : Bool) (now_ms : ℤ) where
    abbrev checked_status : Bool → AppState → AppState
    checked_status verdict state = record state { sync = mark_checked verdict state.sync }

    unfoldable pub after_verify : ℕ → ℕ → AppState → Result (Option Disagreement) × E → Turn E
    unfolding mark_checked should_force_resync
    after_verify last_block mismatches state (err error, e) = again last_block mismatches state e
    after_verify last_block mismatches state (ok none, e) =
        again last_block 0 (checked_status true state) e
    after_verify last_block mismatches state (ok (some reason), e) =
        if should_force_resync (suc mismatches) allowed
        then resync reason (checked_status false state) e
        else again last_block (suc mismatches) (checked_status false state) e

    -- The status and the version after the events.
    unfoldable pub settled : ℕ → ℕ → Bool → AppState → AppState
    unfolding mark_caught_up bump_topology_version
    settled target last_block changed state =
        let reached =
          if leb target last_block
          then record state { sync = mark_caught_up last_block target now_ms state.sync }
          else state in
        if changed then bump_topology_version reached else reached

    unfoldable pub after_catch_up : ℕ → ℕ → Option (Caught E) → Option (Turn E)
    unfolding settled after_verify live_members verify_membership
    after_catch_up target mismatches none = none
    after_catch_up target mismatches (some (stopped state e)) = some (shutdown state e)
    after_catch_up target mismatches (some (caught last_block changed state e)) =
        let state' = settled target last_block changed state in
        if not changed && not due
        then some (again last_block mismatches state' e)
        else some (
            after_verify last_block mismatches state' (
              verify_membership keccak256 membership_at (live_members parse state'.nodes) last_block
                e))

    -- A turn after its tick, whose head is an answer of the chain.
    unfoldable pub turn : Result ℕ → ℕ → ℕ → AppState → E → Option (Turn E)
    unfolding after_catch_up catch_up
    turn (err error) last_block mismatches state e = some (again last_block mismatches state e)
    turn (ok target) last_block mismatches state e =
        after_catch_up target mismatches
          (catch_up (suc (target - last_block)) target last_block false state e)
