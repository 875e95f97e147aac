-- ===== src/Offsets/Counters.antt =====
-- `CumulativeMetrics`, `advance_counter` and `advance_toward` of src/node/offsets.rs. An accepted
-- counter is a number of units, `scale` of them to 1.0, so its arithmetic is exact. A reported value
-- is a `Reported`: the code tells no more of it apart.
use Prim.Native.Nat
use nox_indexer.Prelude.{
  ℕ, ◌+◌, ◌-◌, ◌*◌, ◌==◌, ltb, Bool, true, false, ◌&&◌, ◌||◌, List, [], ◌∷◌, if◌then◌else◌,
}

-- The fields that the macro `cumulative_metrics!` is given.
pub data Counter : Type 0 where
  uptime_seconds packets_received packets_forwarded cover_loop_generated : Counter
  cover_drop_generated sphinx_errors replay_duplicate : Counter
  cumulative_authorized_revenue_usd cumulative_cost_usd cumulative_maximum_cost_usd : Counter
  exit_payloads_dispatched exit_echo exit_http exit_rpc exit_broadcast : Counter
  exit_ethereum exit_traffic profitable_count unprofitable_count : Counter
  eth_transactions_submitted egress_forwarded egress_exited : Counter

abbrev pub counters : List Counter
counters =
    uptime_seconds ∷ packets_received ∷ packets_forwarded ∷ cover_loop_generated
    ∷ cover_drop_generated ∷ sphinx_errors ∷ replay_duplicate ∷ cumulative_authorized_revenue_usd
    ∷ cumulative_cost_usd ∷ cumulative_maximum_cost_usd ∷ exit_payloads_dispatched ∷ exit_echo
    ∷ exit_http ∷ exit_rpc ∷ exit_broadcast ∷ exit_ethereum ∷ exit_traffic ∷ profitable_count
    ∷ unprofitable_count ∷ eth_transactions_submitted ∷ egress_forwarded ∷ egress_exited ∷ []

-- A value for each field.
abbrev pub CumulativeMetrics : Type 0
CumulativeMetrics = Counter → ℕ

abbrev pub zero_metrics : CumulativeMetrics
zero_metrics c = 0

-- A reported `f64`: NaN or positive infinity, below zero, or a number of units.
pub data Reported : Type 0 where
  not_finite below_zero : Reported
  units : ℕ → Reported

-- `reported < accepted`
unfoldable pub is_below : Reported → ℕ → Bool
is_below not_finite accepted = false
is_below below_zero accepted = true
is_below (units n) accepted = ltb n accepted

-- `MAX_READING_WINDOW`, in seconds
abbrev pub max_reading_window : ℕ
max_reading_window = 60

-- `CumulativeMetrics::accumulate`
unfoldable pub accumulate : CumulativeMetrics → CumulativeMetrics → CumulativeMetrics
accumulate totals other c = totals c + other c

unfoldable pub all_zero : List Counter → CumulativeMetrics → Bool
all_zero [] m = true
all_zero (c ∷ cs) m = m c == 0 && all_zero cs m

-- `CumulativeMetrics::is_zero`
unfoldable pub is_zero : CumulativeMetrics → Bool
unfolding all_zero
is_zero m = all_zero counters m

pub record Advance : Type 0 where
  pub accepted : ℕ
  pub allowance : ℕ
  pub adjusted : Bool

-- What is left of `advance_counter` once the allowance is refilled.
unfoldable pub spend : ℕ → Reported → ℕ → Advance
spend accepted not_finite allowance = record {
  accepted = accepted;
  allowance = allowance;
  adjusted = true;
}
spend accepted below_zero allowance = record {
  accepted = accepted;
  allowance = allowance;
  adjusted = true;
}
spend accepted (units n) allowance =
    if ltb n accepted
    then record { accepted = accepted; allowance = allowance; adjusted = true }
    else if ltb allowance (n - accepted)
    then record { accepted = accepted + allowance; allowance = 0; adjusted = true }
    else record { accepted = n; allowance = allowance - (n - accepted); adjusted = false }

unfoldable pub advance_counter : ℕ → Reported → ℕ → ℕ → ℕ → Advance
unfolding spend
advance_counter accepted reported allowance refill capacity =
    spend accepted reported (Nat.min (allowance + refill) capacity)

module _ (scale : ℕ) where
  -- `RATE_CEILINGS`: `PACKETS_PER_SEC`, `SUBMISSIONS_PER_SEC`, `USD_PER_SEC` and `UPTIME_PER_SEC`.
  unfoldable pub rate_ceiling : Counter → ℕ
  rate_ceiling uptime_seconds = 2 * scale
  rate_ceiling cumulative_authorized_revenue_usd = 1 * scale
  rate_ceiling cumulative_cost_usd = 1 * scale
  rate_ceiling cumulative_maximum_cost_usd = 1 * scale
  rate_ceiling exit_ethereum = 10 * scale
  rate_ceiling profitable_count = 10 * scale
  rate_ceiling unprofitable_count = 10 * scale
  rate_ceiling eth_transactions_submitted = 10 * scale
  rate_ceiling other = 1_000 * scale

  -- `advance_toward` at one field.
  unfoldable pub advance_field :
      CumulativeMetrics → (Counter → Reported) → CumulativeMetrics → ℕ → Counter → Advance
  unfolding advance_counter
  advance_field accepted reported allowance window_secs c =
      advance_counter (accepted c) (reported c) (allowance c) (rate_ceiling c * window_secs)
        (rate_ceiling c * max_reading_window)

  unfoldable pub any_adjusted : List Counter → (Counter → Advance) → Bool
  any_adjusted [] advance = false
  any_adjusted (c ∷ cs) advance = (advance c).adjusted || any_adjusted cs advance

  -- `CumulativeMetrics::advance_toward`: the accepted values, the allowance, and whether any reported
  -- value was not taken as is.
  unfoldable pub advance_toward :
      CumulativeMetrics
      → (Counter → Reported)
      → CumulativeMetrics
      → ℕ
      → CumulativeMetrics × CumulativeMetrics × Bool
  unfolding any_adjusted
  advance_toward accepted reported allowance window_secs =
      let advance = advance_field accepted reported allowance window_secs in
      (λ c. (advance c).accepted, λ c. (advance c).allowance, any_adjusted counters advance)
