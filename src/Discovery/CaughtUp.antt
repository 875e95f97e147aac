-- ===== src/Discovery/CaughtUp.antt =====
-- What catching up with the head keeps.
use Prim.Native.Nat
use nox_indexer.Prelude.{
  ℕ, zero, suc, ◌+◌, ◌-◌, ◌≤◌, ◌<◌, ltb, ltb→lt, ◌≡◌, refl, inl, inr, Bool, true, Option, none,
  some, List, [], ◌∷◌, arith, Bool-cases, Option-cases,
}
use nox_indexer.Prelude.Text.{Text}
use nox_indexer.Prelude.Results.{Result, ok, err}
use nox_indexer.Fetch.Chunked.{Fetched, fetched, gave_up}
use nox_indexer.Registry.Events.{
  Address, ChainNodeEvent, registered, profile_changed, removed, unstaked,
}
use nox_indexer.Sync.Status.{i64_max}
use nox_indexer.Nodes.Targets.{IpAddr}
use nox_indexer.Nodes.State.{OnChainNode}
use nox_indexer.Discovery.State.{AppState}
use nox_indexer.Discovery.Live.{or_zero, remove_chain_node, refresh_chain_node, process_chain_event}
use nox_indexer.Discovery.Agreement.{AgreesAt, HasByteRole, process_chain_event-AgreesAt}
use nox_indexer.Discovery.Loop.{
  Caught, caught, stopped, process_logs, chunk_applied, after_chunk, catch_up,
}

module _ (show_address : Address → Text) (sha256 : Text → ℕ) (parse_ip : Text → Option IpAddr)
    (show_socket : IpAddr → ℕ → Text) (allow_private : Bool) (registry : Text) where
  refresh-same_sync :
      (info : Result (Option OnChainNode)) (refused : Option Text) (state : AppState)
      → (refresh_chain_node show_address sha256 parse_ip show_socket allow_private registry info
          refused state).sync
        ≡ state.sync
  unfolding refresh_chain_node
  refresh-same_sync (err error) refused state = refl
  refresh-same_sync (ok none) refused state = refl
  refresh-same_sync (ok (some info)) (some error) state = refl
  refresh-same_sync (ok (some info)) none state = refl

  remove-same_sync :
      (address : Address) (refused : Option Text) (state : AppState)
      → (remove_chain_node show_address address refused state).sync ≡ state.sync
  unfolding remove_chain_node
  remove-same_sync address (some error) state = refl
  remove-same_sync address none state = refl

  event-same_sync :
      (event : ChainNodeEvent) (info : Result (Option OnChainNode)) (refused : Option Text)
      (state : AppState)
      → (process_chain_event show_address sha256 parse_ip show_socket allow_private registry event
          info refused state).sync
        ≡ state.sync
  unfolding process_chain_event
  event-same_sync (registered address) info refused state = refresh-same_sync info refused state
  event-same_sync (profile_changed address) info refused state =
      refresh-same_sync info refused state
  event-same_sync (removed address) info refused state = remove-same_sync address refused state
  event-same_sync (unstaked address amount) info refused state =
      remove-same_sync address refused state

  module _ {E : Type 0} {Log : Type 0} (decode_log : Log → Option ChainNodeEvent)
      (fetch_logs_chunk : E → ℕ → ℕ → Fetched Log × E)
      (answers : E → ChainNodeEvent → (Result (Option OnChainNode) × Option Text) × E)
      (refuse_checkpoint : E → Option Text × E) (cancelled : E → Bool) where
    -- A fetched chunk ends in the range that was asked for.
    abbrev pub IsInRange : Type 0
    IsInRange =
        (e e' : E) (from to : ℕ) (logs : List Log) (end : ℕ)
        → from ≤ to
        → fetch_logs_chunk e from to ≡ (fetched logs end, e')
        → (from ≤ end) × (end ≤ to)

    module _ (in_range : IsInRange)
        (byte_roles : (e : E) (event : ChainNodeEvent) → HasByteRole ((answers e event).0).0)
        (a : Text) where
      -- At the address memory holds what a restart would load, and the chain id is within an i64.
      abbrev pub IsRight : AppState → Type 0
      IsRight state =
          AgreesAt sha256 parse_ip show_socket allow_private registry a state
          × (or_zero state.sync.chain_id ≤ i64_max)

      process_logs-IsRight :
          (logs : List Log) (changed : Bool) (state : AppState) (e : E)
          → IsRight state
          → IsRight
              (process_logs show_address sha256 parse_ip show_socket allow_private registry
                decode_log fetch_logs_chunk answers refuse_checkpoint cancelled logs changed state
                e).0
      unfolding process_logs
      process_logs-IsRight [] changed state e h = h
      process_logs-IsRight (log ∷ logs) changed state e h = elim (Option-cases (decode_log log)) [
        | inl g ↦ rw (g, process_logs) (process_logs-IsRight logs changed state e h)
        | inr (event, g) ↦
            let answer = (answers e event).0 in
            let after =
              process_chain_event show_address sha256 parse_ip show_socket allow_private registry
                event answer.0 answer.1 state in
            rw (g, process_logs)
              (process_logs-IsRight logs true after (answers e event).1 (
                process_chain_event-AgreesAt sha256 parse_ip show_socket allow_private registry a
                    show_address event answer.0 answer.1 state (byte_roles e event) h.1 h.0,
                rw (event-same_sync event answer.0 answer.1 state) h.1,
              ))
      ]

      chunk_applied-IsRight :
          (end : ℕ) (refused : Option Text) (state : AppState)
          → IsRight state
          → IsRight (
              chunk_applied show_address sha256 parse_ip show_socket allow_private registry
                decode_log fetch_logs_chunk answers refuse_checkpoint cancelled end refused state)
      unfolding chunk_applied
      chunk_applied-IsRight end (some error) state h = h
      chunk_applied-IsRight end none state h = h

      -- The inner loop ends at a block that is not behind and not beyond the target.
      abbrev pub IsCaught : ℕ → ℕ → Option (Caught E) → Type 0
      IsCaught last target none = ⊥
      IsCaught last target (some (stopped state e)) = IsRight state
      IsCaught last target (some (caught last' changed state e)) =
          (last ≤ last') × (last' ≤ Nat.max last target) × IsRight state

      caught_later :
          (last later target : ℕ) (r : Option (Caught E))
          → last ≤ later
          → later ≤ target
          → IsCaught later target r
          → IsCaught last target r
      caught_later last later target none l m h = h
      caught_later last later target (some (stopped state e)) l m h = h
      caught_later last later target (some (caught last' changed state e)) l m (h, g, v) =
          (omega arith, omega arith, v)

      after_chunk-IsCaught :
          (next : ℕ → Bool → AppState → E → Option (Caught E)) (last target : ℕ) (changed : Bool)
          (state : AppState) (answer : Fetched Log × E)
          → IsRight state
          → ((logs : List Log) (end : ℕ) (e' : E)
              → answer ≡ (fetched logs end, e')
              → (last < end) × (end ≤ target))
          → ((end : ℕ) (changed' : Bool) (state' : AppState) (e' : E)
              → last < end
              → end ≤ target
              → IsRight state'
              → IsCaught end target (next end changed' state' e'))
          → IsCaught last target (
              after_chunk show_address sha256 parse_ip show_socket allow_private registry decode_log
                fetch_logs_chunk answers refuse_checkpoint cancelled next last changed state answer)
      unfolding after_chunk
      after_chunk-IsCaught next last target changed state (gave_up error, e) v r h =
          elim (Bool-cases (cancelled e)) [
            | inl stop ↦ rw stop v
            | inr go ↦ rw go (omega arith, omega arith, v)
          ]
      after_chunk-IsCaught next last target changed state (fetched logs end, e) v r h =
          let (low, high) = r logs end e refl in
          let applied =
            process_logs show_address sha256 parse_ip show_socket allow_private registry decode_log
              fetch_logs_chunk answers refuse_checkpoint cancelled logs changed state e in
          let refused = refuse_checkpoint (applied.1).1 in
          let state' =
            chunk_applied show_address sha256 parse_ip show_socket allow_private registry decode_log
              fetch_logs_chunk answers refuse_checkpoint cancelled end refused.0 applied.0 in
          caught_later last end target (next end (applied.1).0 state' refused.1) (omega arith) high
            (h end (applied.1).0 state' refused.1 low high (
              chunk_applied-IsRight end refused.0 applied.0
                (process_logs-IsRight logs changed state e v)))

      pub catch_up-IsCaught :
          (fuel last target : ℕ) (changed : Bool) (state : AppState) (e : E)
          → target - last < fuel
          → IsRight state
          → IsCaught last target (
              catch_up show_address sha256 parse_ip show_socket allow_private registry decode_log
                fetch_logs_chunk answers refuse_checkpoint cancelled fuel target last changed state
                e)
      unfolding catch_up
      catch_up-IsCaught zero last target changed state e f v = absurd (omega arith)
      catch_up-IsCaught (suc fuel) last target changed state e f v =
          elim (Bool-cases (ltb last target)) [
            | inr over ↦ rw (over, catch_up) (omega arith, omega arith, v)
            | inl more ↦
                let lt = ltb→lt last target more in
                rw (more, catch_up)
                  (after_chunk-IsCaught
                    (λ end changed' state' e'.
                      catch_up show_address sha256 parse_ip show_socket allow_private registry
                        decode_log fetch_logs_chunk answers refuse_checkpoint cancelled fuel target
                        end changed' state' e')
                    last target changed state (fetch_logs_chunk e (last + 1) target) v
                    (λ logs end e' g.
                      let (low, high) = in_range e e' (last + 1) target logs end (omega arith) g in
                      (omega arith, high))
                    (λ end changed' state' e' low high v'.
                      catch_up-IsCaught fuel end target changed' state' e' (omega arith) v'))
          ]
