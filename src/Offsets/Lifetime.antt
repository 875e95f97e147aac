-- ===== src/Offsets/Lifetime.antt =====
-- The lifetime figures over readings, restarts included.
use nox_indexer.Prelude.{
  ℕ, suc, ◌+◌, ◌*◌, ◌≤◌, ◌≡◌, ◌∙◌, inl, inr, refl, ap, Bool, true, false, ◌||◌, not, List, [], ◌∷◌,
  if◌then◌else◌, arith, Bool-cases, Option, none, some,
}
use nox_indexer.Prelude.Int.{ℤ, pos}
use nox_indexer.Offsets.Counters.{
  Counter, CumulativeMetrics, zero_metrics, accumulate, max_reading_window, rate_ceiling,
  advance_field, advance_toward,
}
use nox_indexer.Offsets.Allowance.{advance_counter-IsStep}
use nox_indexer.Offsets.Observe.{
  StructuredMetrics, NodeOffset, is_restarted, bank, track, window_secs, observe, lifetime,
  totals_from, network_totals,
}

lifetime-bank : (b : Bool) (o : NodeOffset) (c : Counter) → lifetime (bank b o) c ≡ lifetime o c
unfolding lifetime bank
lifetime-bank true o c = omega arith
lifetime-bank false o c = refl

bank_allowance : (b : Bool) (o : NodeOffset) → (bank b o).allowance ≡ o.allowance
unfolding bank
bank_allowance true o = refl
bank_allowance false o = refl

track_same :
    (start : ℤ) (o : NodeOffset)
    → ((track start o).banked ≡ o.banked)
      × ((track start o).last_raw ≡ o.last_raw)
      × ((track start o).allowance ≡ o.allowance)
unfolding track
track_same start o = ground arith

-- The window credited to a reading: between one second and sixty.
pub window_secs_bounds :
    (last : Option ℕ) (now : ℕ) → (1 ≤ window_secs last now) × (window_secs last now ≤ 60)
unfolding window_secs
window_secs_bounds none now = omega arith
window_secs_bounds (some previous) now = omega arith

module _ (scale : ℕ) where
  -- What one reading does to one counter's lifetime figure.
  pub record IsAdvanced (before after : NodeOffset) (window : ℕ) (c : Counter) : Type 0 where
    pub forward : lifetime before c ≤ lifetime after c
    pub bounded :
        lifetime after c + after.allowance c
        ≤ lifetime before c + before.allowance c + rate_ceiling scale c * window
    pub capped : after.allowance c ≤ rate_ceiling scale c * max_reading_window

  -- A reading, whatever it reports and whether or not the node restarted, never lowers a lifetime
  -- figure. The figure and the allowance together grow by the counter's rate ceiling over the credited
  -- window at most, and the allowance never exceeds the ceiling over sixty seconds.
  pub observe-IsAdvanced :
      (o : NodeOffset) (m : StructuredMetrics) (now : ℕ) (c : Counter)
      → IsAdvanced o (observe scale o m now).0 (window_secs o.last_observed_at now) c
  unfolding observe advance_toward advance_field lifetime accumulate
  observe-IsAdvanced o m now c =
      let b = bank (is_restarted o m) o in
      let t = track m.node_start_time b in
      let (same_banked, same_raw, same_allowance) = track_same m.node_start_time b in
      let w = window_secs o.last_observed_at now in
      let s =
        advance_counter-IsStep (t.last_raw c) (m.counters c) (t.allowance c)
          (rate_ceiling scale c * w) (rate_ceiling scale c * max_reading_window) in
      let kept : t.banked c + t.last_raw c ≡ o.banked c + o.last_raw c =
        ap (λ (f : CumulativeMetrics). f c + t.last_raw c) same_banked
        ∙ ap (λ (f : CumulativeMetrics). b.banked c + f c) same_raw
        ∙ lifetime-bank (is_restarted o m) o c in
      let left : t.allowance c ≡ o.allowance c =
        ap (λ (f : CumulativeMetrics). f c)
          (same_allowance ∙ bank_allowance (is_restarted o m) o) in
      record {
        forward = omega (arith, s.forward, kept);
        bounded = omega (arith, s.accounted, kept, left);
        capped = s.capped;
      }

  -- Readings in a row, each at its time.
  unfoldable pub observe_all : NodeOffset → List (StructuredMetrics × ℕ) → NodeOffset
  observe_all o [] = o
  observe_all o ((m, now) ∷ rest) = observe_all (observe scale o m now).0 rest

  -- The windows credited to the readings, summed.
  unfoldable pub credited : NodeOffset → List (StructuredMetrics × ℕ) → ℕ
  credited o [] = 0
  credited o ((m, now) ∷ rest) =
      window_secs o.last_observed_at now + credited (observe scale o m now).0 rest

  -- Over any sequence of readings and restarts a lifetime figure never falls, and grows by at most
  -- the initial allowance and the rate ceiling over all credited windows.
  pub observe_all_bounds :
      (o : NodeOffset) (readings : List (StructuredMetrics × ℕ)) (c : Counter)
      → (lifetime o c ≤ lifetime (observe_all o readings) c)
        × (lifetime (observe_all o readings) c
            ≤ lifetime o c + o.allowance c + rate_ceiling scale c * credited o readings)
  unfolding observe_all credited
  observe_all_bounds o [] c = omega arith
  observe_all_bounds o ((m, now) ∷ rest) c =
      let step = observe-IsAdvanced o m now c in
      let later = observe_all_bounds (observe scale o m now).0 rest c in
      (omega (arith, step.forward, later.0), omega (arith, step.bounded, later.1))

-- `total` and the lifetime figures of the nodes.
unfoldable pub sum_lifetimes : List NodeOffset → Counter → ℕ
sum_lifetimes [] c = 0
sum_lifetimes (o ∷ os) c = lifetime o c + sum_lifetimes os c

totals_from-eq :
    (total : CumulativeMetrics) (os : List NodeOffset) (c : Counter)
    → totals_from total os c ≡ total c + sum_lifetimes os c
unfolding totals_from sum_lifetimes lifetime accumulate
totals_from-eq total [] c = omega arith
totals_from-eq total (o ∷ os) c =
    omega (arith, totals_from-eq (accumulate (accumulate total o.banked) o.last_raw) os c)

-- The network's total of a counter is the sum of the nodes' lifetime figures.
pub network_totals-eq :
    (os : List NodeOffset) (c : Counter) → network_totals os c ≡ sum_lifetimes os c
unfolding network_totals
network_totals-eq os c = omega (arith, totals_from-eq zero_metrics os c)

-- An observed restart moves the accepted values of the ended incarnation into the bank and marks the
-- node for saving; without one the bank stays as it is.
pub observe_banks :
    (scale : ℕ) (o : NodeOffset) (m : StructuredMetrics) (now : ℕ) (c : Counter)
    → ((observe scale o m now).0.banked c
        ≡ o.banked c + (if (observe scale o m now).1.restarted then o.last_raw c else 0))
      × (((not (observe scale o m now).1.restarted) || (observe scale o m now).0.dirty) ≡ true)
unfolding observe track bank accumulate
observe_banks scale o m now c = elim (Bool-cases (is_restarted o m)) [
  | inl e ↦ ground arith
  | inr e ↦ ground arith
]

-- A node that keeps reporting the same positive start time is not taken for a restarted one.
pub observe_steady :
    (scale : ℕ) (o : NodeOffset) (m m' : StructuredMetrics) (now n : ℕ)
    → m.node_start_time ≡ pos (suc n)
    → m'.node_start_time ≡ pos (suc n)
    → is_restarted (observe scale o m now).0 m' ≡ false
unfolding observe is_restarted
observe_steady scale o m m' now n e e' = ground arith
