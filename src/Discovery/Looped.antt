-- ===== src/Discovery/Looped.antt =====
-- What a turn of the live loop keeps.
use Prim.Native.Nat
use nox_indexer.Prelude.{List, ℕ, suc, ◌≤◌, ◌≡◌, Bool, true, false, Option, none, some}
use nox_indexer.Prelude.Int.{ℤ}
use nox_indexer.Prelude.Text.{Text}
use nox_indexer.Prelude.Results.{Result, ok, err}
use nox_indexer.Fetch.Chunked.{Fetched}
use nox_indexer.Registry.Events.{Address, ChainNodeEvent}
use nox_indexer.Registry.Fingerprint.{Bits, Disagreement}
use nox_indexer.Nodes.Targets.{IpAddr}
use nox_indexer.Nodes.State.{OnChainNode}
use nox_indexer.Discovery.Agreement.{HasByteRole}
use nox_indexer.Discovery.Retried.{verify_membership}
use nox_indexer.Discovery.Loop.{Turn, again, shutdown, resync}
use nox_indexer.Discovery.CaughtUp.{IsInRange, IsRight}

module _ (show_address : Address → Text) (sha256 : Text → ℕ) (parse_ip : Text → Option IpAddr)
    (show_socket : IpAddr → ℕ → Text) (allow_private : Bool) (registry : Text) {E : Type 0}
    {Log : Type 0} (decode_log : Log → Option ChainNodeEvent)
    (fetch_logs_chunk : E → ℕ → ℕ → Fetched Log × E)
    (answers : E → ChainNodeEvent → (Result (Option OnChainNode) × Option Text) × E)
    (refuse_checkpoint : E → Option Text × E) (cancelled : E → Bool)
    (in_range : IsInRange show_address sha256 parse_ip show_socket allow_private registry decode_log
      fetch_logs_chunk answers refuse_checkpoint cancelled)
    (byte_roles : (e : E) (event : ChainNodeEvent) → HasByteRole ((answers e event).0).0)
    (a : Text) where
  module _ (parse : Text → Option Address) (keccak256 : Address → Bits)
      (membership_at : E → ℕ → Result (ℕ × Bits) × E) (due allowed : Bool) (now_ms : ℤ) where
    abbrev head_of : Result ℕ → ℕ
    head_of (err error) = 0
    head_of (ok target) = target

    -- The answer of the check of a turn, if there is one: that of the registry for some members at a
    -- block, an error if it could not be read. There is none if the head could not be read, or else
    -- only if no check is due.
    abbrev IsAnswer : Result ℕ → Option (Result (Option Disagreement)) → Type 0
    IsAnswer (err error) none = Unit
    IsAnswer (ok target) none = due ≡ false
    IsAnswer (err error) (some answer) = ⊥
    IsAnswer (ok target) (some answer) =
        (members : List Address) × (block : ℕ) × (e : E) × (e' : E) × (verify_membership keccak256
            membership_at members block e
          ≡ (answer, e'))

    -- The mismatches after an answer: those in a row, an unread one leaves them.
    abbrev pub counted : Option (Result (Option Disagreement)) → ℕ → ℕ
    counted none n = n
    counted (some (err error)) n = n
    counted (some (ok none)) n = 0
    counted (some (ok (some reason))) n = suc n

    -- What a turn ends with, from a block and a number of mismatches: the next block is not behind
    -- and not beyond the head, the mismatches are counted by the answer of the check, and a replay is
    -- forced only by a disagreement, where it may be, and not at the first mismatch.
    abbrev pub IsTurned : ℕ → ℕ → Result ℕ → Option (Turn E) → Type 0
    IsTurned last mismatches head none = ⊥
    IsTurned last mismatches head (some (shutdown state e)) =
        IsRight show_address sha256 parse_ip show_socket allow_private registry decode_log
          fetch_logs_chunk answers refuse_checkpoint cancelled in_range byte_roles a state
    IsTurned last mismatches head (some (resync reason state e)) =
        IsRight show_address sha256 parse_ip show_socket allow_private registry decode_log
          fetch_logs_chunk answers refuse_checkpoint cancelled in_range byte_roles a state
        × (2 ≤ suc mismatches)
        × (allowed ≡ true)
        × IsAnswer head (some (ok (some reason)))
    IsTurned last mismatches head (some (again last' mismatches' state e)) =
        IsRight show_address sha256 parse_ip show_socket allow_private registry decode_log
          fetch_logs_chunk answers refuse_checkpoint cancelled in_range byte_roles a state
        × (last ≤ last')
        × (last' ≤ Nat.max last (head_of head))
        × ((answer : Option (Result (Option Disagreement))) × IsAnswer head answer
            × (mismatches' ≡ counted answer mismatches))
