-- ===== src/Retry/Backoff.antt =====
-- `backoff_delay` and `next_entropy` of src/chain/retry.rs. A `Duration` is its number of
-- nanoseconds; `none` is a panic on arithmetic overflow.
use Prim.Native.Nat
use Prim.Native.Nat.{bit_xor}
use nox_indexer.Prelude.{
  ℕ, ◌+◌, ◌-◌, ◌*◌, ◌/◌, ◌%◌, ◌^◌, ◌<◌, ◌≤◌, ◌≡◌, Option, none, some, arith, ltb, ◌==◌,
  if◌then◌else◌, Bool-cases, inl, inr,
}
use nox_indexer.Prelude.Words.{u64_mod, u64_max}

abbrev pub nanos_per_milli : ℕ
nanos_per_milli = 1_000_000

abbrev pub nanos_per_sec : ℕ
nanos_per_sec = 1_000_000_000

-- `Duration::MAX`
abbrev pub duration_max : ℕ
duration_max = u64_max * nanos_per_sec + 999_999_999

-- `duration.checked_mul(n)`
abbrev pub checked_mul : ℕ → ℕ → Option ℕ
checked_mul d n = if ltb duration_max (d * n) then none else some (d * n)

abbrev unwrap_or : Option ℕ → ℕ → ℕ
unwrap_or none d = d
unwrap_or (some v) d = v

-- `min(cap, base * 2^(attempt-1))` as the code computes it.
unfoldable pub window_ceiling : ℕ → ℕ → ℕ → ℕ
window_ceiling attempt base limit =
    let exponent = Nat.min (attempt - 1) 20 in
    Nat.min (unwrap_or (checked_mul base (2 ^ exponent)) limit) limit

-- Half of the window, and a jitter of whole milliseconds up to the other half.
unfoldable pub with_jitter : ℕ → ℕ → Option ℕ
with_jitter half entropy =
    let span_ms = Nat.min (half / nanos_per_milli) u64_max in
    if span_ms == 0
    then some half
    else if span_ms == u64_max
    then none
    else some (half + entropy % (span_ms + 1) * nanos_per_milli)

unfoldable pub backoff_delay : ℕ → ℕ → ℕ → ℕ → Option ℕ
unfolding window_ceiling with_jitter
backoff_delay attempt base limit entropy =
    with_jitter (window_ceiling attempt base limit / 2) entropy

window_ceiling_lem :
    (attempt base limit : ℕ)
    → limit < u64_mod * nanos_per_milli
    → window_ceiling attempt base limit ≡ Nat.min (base * 2 ^ Nat.min (attempt - 1) 20) limit
unfolding window_ceiling
window_ceiling_lem attempt base limit h = ground arith

jitter-le : (r half : ℕ) → r ≤ half / nanos_per_milli → r * nanos_per_milli ≤ half
jitter-le r half h = omega arith

with_jitter_bounds :
    (half entropy : ℕ)
    → half < u64_max * nanos_per_milli
    → (d : ℕ) × (with_jitter half entropy ≡ some d) × (half ≤ d) × (d ≤ half + half)
unfolding with_jitter
with_jitter_bounds half entropy h =
    elim (Bool-cases (Nat.min (half / nanos_per_milli) u64_max == 0)) [
      | inl none_left ↦ (half, rw (none_left, with_jitter), omega arith, omega arith)
      | inr some_left ↦
          let span = Nat.min (half / nanos_per_milli) u64_max in
          let small : span < u64_max = omega arith in
          (
            half + entropy % (span + 1) * nanos_per_milli,
            ground arith,
            omega arith,
            omega (arith, jitter-le (entropy % (span + 1)) half (omega arith)),
          )
    ]

-- The delay stays in the upper half of a window that doubles with each attempt up to the cap: for
-- every cap below 2^64 milliseconds the code returns, whatever the entropy, at least half (rounded
-- down) of `min(cap, base * 2^min(attempt - 1, 20))` and at most all of it.
pub backoff_delay_window :
    (attempt base limit entropy : ℕ)
    → limit < u64_mod * nanos_per_milli
    → (d : ℕ) × (backoff_delay attempt base limit entropy ≡ some d)
      × (Nat.min (base * 2 ^ Nat.min (attempt - 1) 20) limit / 2 ≤ d)
      × (d ≤ Nat.min (base * 2 ^ Nat.min (attempt - 1) 20) limit)
unfolding backoff_delay
backoff_delay_window attempt base limit entropy h =
    let window = window_ceiling attempt base limit in
    let same = window_ceiling_lem attempt base limit h in
    let (d, e, low, high) = with_jitter_bounds (window / 2) entropy (omega (arith, same)) in
    (d, e, omega (arith, same), omega (arith, same))

-- `next_entropy`: splitmix64 over the clock's nanoseconds and a process-wide counter. Returns the
-- value and the counter that the next call finds.
unfoldable pub next_entropy : ℕ → ℕ → ℕ × ℕ
next_entropy counter nanos =
    let z = (counter + nanos) % u64_mod in
    let z' = bit_xor z (z / 2 ^ 30) * 0xBF58_476D_1CE4_E5B9 % u64_mod in
    let z'' = bit_xor z' (z' / 2 ^ 27) * 0x94D0_49BB_1331_11EB % u64_mod in
    (bit_xor z'' (z'' / 2 ^ 31), (counter + 0x9E37_79B9_7F4A_7C15) % u64_mod)

-- `jittered_backoff`: the delay, and the counter that the next call finds.
unfoldable pub jittered_backoff : ℕ → ℕ → ℕ → ℕ → ℕ → Option ℕ × ℕ
unfolding backoff_delay next_entropy
jittered_backoff attempt base limit counter nanos =
    let (entropy, counter') = next_entropy counter nanos in
    (backoff_delay attempt base limit entropy, counter')
