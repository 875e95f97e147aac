-- ===== src/Offsets/Observe.antt =====
-- `NodeOffset` of src/node/offsets.rs: restart detection, banking and the lifetime totals. An
-- `Instant` is its number of nanoseconds; `node_start_time` is the value cast to `i64`.
use Prim.Native.Nat
use nox_indexer.Prelude.{
  ℕ, ◌-◌, ◌*◌, ◌/◌, ◌==◌, Bool, true, false, ◌&&◌, not, Option, none, some, List, [], ◌∷◌,
  if◌then◌else◌,
}
use nox_indexer.Prelude.Int.{ℤ, pos, negsuc}
use nox_indexer.Offsets.Counters.{
  Counter, uptime_seconds, CumulativeMetrics, zero_metrics, Reported, units, is_below, accumulate,
  advance_toward,
}

abbrev pub nanos_per_sec : ℕ
nanos_per_sec = 1_000_000_000

-- The fields of `StructuredMetrics` that the offsets read and write.
pub record StructuredMetrics : Type 0 where
  pub node_start_time : ℤ
  pub counters : Counter → Reported

pub record NodeOffset : Type 0 where
  pub last_node_start_time : ℤ
  pub banked : CumulativeMetrics
  pub last_raw : CumulativeMetrics
  pub dirty : Bool
  pub last_observed_at : Option ℕ
  pub allowance : CumulativeMetrics
  pub adjusting : Bool

-- `NodeOffset::default()`
abbrev pub default_offset : NodeOffset
default_offset = record {
  last_node_start_time = pos 0;
  banked = zero_metrics;
  last_raw = zero_metrics;
  dirty = false;
  last_observed_at = none;
  allowance = zero_metrics;
  adjusting = false;
}

pub record Observation : Type 0 where
  pub restarted : Bool
  pub adjusted : Bool

abbrev pub is_positive : ℤ → Bool
is_positive (pos n) = not (n == 0)
is_positive (negsuc n) = false

abbrev pub int_eq : ℤ → ℤ → Bool
int_eq (pos a) (pos b) = a == b
int_eq (pos a) (negsuc b) = false
int_eq (negsuc a) (pos b) = false
int_eq (negsuc a) (negsuc b) = a == b

unfoldable pub is_restarted : NodeOffset → StructuredMetrics → Bool
unfolding is_below
is_restarted o m =
    if is_positive m.node_start_time && is_positive o.last_node_start_time
    then not (int_eq m.node_start_time o.last_node_start_time)
    else not (int_eq o.last_node_start_time (pos 0))
      && is_below (m.counters uptime_seconds) (o.last_raw uptime_seconds)

-- Fold the previous incarnation into the bank.
unfoldable pub bank : Bool → NodeOffset → NodeOffset
bank false o = o
bank true o = record o {
  banked = accumulate o.banked o.last_raw;
  last_raw = zero_metrics;
  dirty = true;
}

-- Track the incarnation, `-1` marking one that reports no start time.
unfoldable pub track : ℤ → NodeOffset → NodeOffset
track start o =
    if is_positive start && not (int_eq o.last_node_start_time start)
    then record o { last_node_start_time = start; dirty = true }
    else if not (is_positive start) && int_eq o.last_node_start_time (pos 0)
    then record o { last_node_start_time = negsuc 0; dirty = true }
    else o

-- The time credited to a reading, in whole seconds: `FIRST_READING_WINDOW` without an earlier
-- reading, and between `MIN_READING_WINDOW` and `MAX_READING_WINDOW` in any case.
unfoldable pub window_secs : Option ℕ → ℕ → ℕ
window_secs none now = 60
window_secs (some previous) now =
    Nat.min (Nat.max (now - previous) nanos_per_sec) (60 * nanos_per_sec) / nanos_per_sec

module _ (scale : ℕ) where
  unfoldable pub observe : NodeOffset → StructuredMetrics → ℕ → NodeOffset × Observation
  unfolding is_restarted bank track window_secs
  observe o m now =
      let restarted = is_restarted o m in
      let o' = track m.node_start_time (bank restarted o) in
      let (accepted, allowance', adjusted) =
        advance_toward scale o'.last_raw m.counters o'.allowance
          (window_secs o.last_observed_at now) in
      (
        record o' { last_raw = accepted; allowance = allowance'; last_observed_at = some now },
        record { restarted = restarted; adjusted = adjusted },
      )

-- A node's lifetime figure: its banked incarnations and the accepted current one.
unfoldable pub lifetime : NodeOffset → CumulativeMetrics
unfolding accumulate
lifetime o = accumulate o.banked o.last_raw

-- `NodeOffset::apply`
unfoldable pub apply : NodeOffset → StructuredMetrics → StructuredMetrics
unfolding lifetime
apply o m = record m { counters = λ c. units (lifetime o c) }

-- `network_totals`
unfoldable pub totals_from : CumulativeMetrics → List NodeOffset → CumulativeMetrics
unfolding accumulate
totals_from total [] = total
totals_from total (o ∷ os) = totals_from (accumulate (accumulate total o.banked) o.last_raw) os

unfoldable pub network_totals : List NodeOffset → CumulativeMetrics
unfolding totals_from
network_totals offsets = totals_from zero_metrics offsets
