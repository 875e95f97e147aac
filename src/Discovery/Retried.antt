-- ===== src/Discovery/Retried.antt =====
-- `retry_rpc_attempts` and `verify_membership` of src/chain/mod.rs. An operation is a function of the
-- state `E` of the world outside; `cancelled` tells whether the process is shutting down when a wait
-- would begin. The waits themselves are left out.
use nox_indexer.Prelude.{ℕ, zero, suc, ◌-◌, Bool, true, false, Option, List, ◌++◌, if◌then◌else◌}
use nox_indexer.Prelude.Text.{Text, text, show_u64}
use nox_indexer.Prelude.Results.{Result, ok, err}
use nox_indexer.Registry.Events.{Address}
use nox_indexer.Registry.Fingerprint.{Bits, Disagreement, validate_pinned_membership}

module _ {E : Type 0} (cancelled : E → Bool) {A : Type 0} (label : Text)
    (operation : E → Result A × E) where
  abbrev gave_up_after : ℕ → Text → Text
  gave_up_after attempt error =
      label ++ text " failed after " ++ show_u64 attempt ++ text " attempts: " ++ error

  -- One attempt, of which `again` is the next one.
  unfoldable pub after_attempt : Bool → ℕ → (E → Result A × E) → Result A × E → Result A × E
  after_attempt last attempt again (ok value, e) = (ok value, e)
  after_attempt last attempt again (err error, e) =
      if last
      then (err (gave_up_after attempt error), e)
      else if cancelled e
      then (err (label ++ text ": shutting down"), e)
      else again e

  -- The loop with `left` attempts after this one.
  unfoldable pub retry_loop : ℕ → ℕ → E → Result A × E
  unfolding after_attempt
  retry_loop zero attempt e = after_attempt true attempt (λ e'. operation e') (operation e)
  retry_loop (suc left) attempt e =
      after_attempt false attempt (λ e'. retry_loop left (suc attempt) e') (operation e)

  -- One attempt is made even if none is allowed.
  unfoldable pub retry_rpc_attempts : ℕ → E → Result A × E
  unfolding retry_loop
  retry_rpc_attempts max_attempts e = retry_loop (max_attempts - 1) 1 e

module _ {E : Type 0} (keccak256 : Address → Bits)
    (membership_at : E → ℕ → Result (ℕ × Bits) × E) where
  abbrev pub verdict_from : List Address → Result (ℕ × Bits) × E → Result (Option Disagreement) × E
  verdict_from members (err error, e) = (err error, e)
  verdict_from members (ok (count, fingerprint), e) =
      (ok (validate_pinned_membership keccak256 members count fingerprint), e)

  -- The outer result is that of the read; `none` within is agreement.
  unfoldable pub verify_membership : List Address → ℕ → E → Result (Option Disagreement) × E
  unfolding validate_pinned_membership
  verify_membership members block e = verdict_from members (membership_at e block)
