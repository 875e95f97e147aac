-- ===== src/Offsets/Allowance.antt =====
-- One counter's step towards a report, and the step of all of them.
use Prim.Native.Nat
use nox_indexer.Prelude.{ℕ, ◌+◌, ◌≤◌, ◌≡◌, ◌↔◌, false, arith}
use nox_indexer.Offsets.Counters.{
  Reported, units, not_finite, below_zero, Advance, spend, advance_counter,
}

-- What one step of a counter guarantees.
pub record IsStep (accepted allowance refill capacity : ℕ) (reported : Reported) (a : Advance)
    : Type 0 where
  pub forward : accepted ≤ a.accepted
  pub accounted : a.accepted + a.allowance ≡ accepted + Nat.min (allowance + refill) capacity
  pub capped : a.allowance ≤ capacity
  pub taken : (a.adjusted ≡ false) ↔ (reported ≡ units a.accepted)

spend_lem :
    (accepted allowance : ℕ) (reported : Reported)
    → (accepted ≤ (spend accepted reported allowance).accepted)
      × ((spend accepted reported allowance).accepted
            + (spend accepted reported allowance).allowance
          ≡ accepted + allowance)
      × ((spend accepted reported allowance).allowance ≤ allowance)
unfolding spend
spend_lem accepted allowance not_finite = ground arith
spend_lem accepted allowance below_zero = ground arith
spend_lem accepted allowance (units n) = ground arith

units_same : {a b : ℕ} → units a ≡ units b → a ≡ b
units_same e = cc

taken_lem :
    (accepted allowance : ℕ) (reported : Reported)
    → ((spend accepted reported allowance).adjusted ≡ false)
    → (reported ≡ units (spend accepted reported allowance).accepted)
unfolding spend
taken_lem accepted allowance not_finite e = cc
taken_lem accepted allowance below_zero e = cc
taken_lem accepted allowance (units n) e = ground arith

as_is_lem :
    (accepted allowance : ℕ) (reported : Reported)
    → (reported ≡ units (spend accepted reported allowance).accepted)
    → ((spend accepted reported allowance).adjusted ≡ false)
unfolding spend
as_is_lem accepted allowance not_finite e = cc
as_is_lem accepted allowance below_zero e = cc
as_is_lem accepted allowance (units n) e = ground (arith, units_same e)

-- A step never lowers the accepted value, and moves value from the refilled allowance to it without
-- loss; the allowance stays within its capacity; and the step reports no adjustment exactly when the
-- report has become the accepted value.
pub advance_counter-IsStep :
    (accepted : ℕ) (reported : Reported) (allowance refill capacity : ℕ)
    → IsStep accepted allowance refill capacity reported
        (advance_counter accepted reported allowance refill capacity)
unfolding advance_counter
advance_counter-IsStep accepted reported allowance refill capacity =
    let filled = Nat.min (allowance + refill) capacity in
    let (low, sum, left) = spend_lem accepted filled reported in
    record {
      forward = low;
      accounted = sum;
      capped = omega (arith, left);
      taken = (taken_lem accepted filled reported, as_is_lem accepted filled reported);
    }

-- A report at or above the accepted value, within the refilled allowance, is taken as it is.
pub advance_counter_within :
    (accepted n allowance refill capacity : ℕ)
    → accepted ≤ n
    → n ≤ accepted + Nat.min (allowance + refill) capacity
    → ((advance_counter accepted (units n) allowance refill capacity).accepted ≡ n)
      × ((advance_counter accepted (units n) allowance refill capacity).adjusted ≡ false)
unfolding advance_counter spend
advance_counter_within accepted n allowance refill capacity low high = ground arith
