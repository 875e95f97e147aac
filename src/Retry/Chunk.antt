-- ===== src/Retry/Chunk.antt =====
-- `AdaptiveChunk` of src/chain/retry.rs, field by field and method by method.
use Prim.Native.Nat
use nox_indexer.Prelude.{ℕ, ◌+◌, ◌/◌, ◌%◌, ◌&&◌, Option, none, some, ltb, leb, if◌then◌else◌}
use nox_indexer.Prelude.Words.{u32_mod, saturating_mul}

-- `GROW_AFTER_SUCCESSES`
abbrev pub grow_after_successes : ℕ
grow_after_successes = 2

-- `size`, `min` and `ceiling` are `u64`, `streak` is a `u32`.
pub record AdaptiveChunk : Type 0 where
  pub size : ℕ
  pub min : ℕ
  pub ceiling : ℕ
  pub streak : ℕ

-- `initial.clamp(min, max)`
abbrev clamp : ℕ → ℕ → ℕ → ℕ
clamp initial low high = Nat.min (Nat.max initial low) high

-- `AdaptiveChunk::new`
unfoldable pub new : ℕ → ℕ → ℕ → AdaptiveChunk
new initial low high =
    let low' = Nat.max low 1 in
    let high' = Nat.max high low' in
    record { size = clamp initial low' high'; min = low'; ceiling = high'; streak = 0 }

-- The streak is a `u32` that wraps in a release build.
unfoldable pub on_success : AdaptiveChunk → AdaptiveChunk
on_success c =
    let streak' = (c.streak + 1) % u32_mod in
    if leb grow_after_successes streak' && ltb c.size c.ceiling
    then record c { size = Nat.min (saturating_mul c.size 2) c.ceiling; streak = 0 }
    else record c { streak = streak' }

-- The size asked for next: the advertised limit if it is below the rejected span, else half the span.
abbrev pub next_size : ℕ → Option ℕ → ℕ
next_size failed_span none = failed_span / 2
next_size failed_span (some limit) = if ltb limit failed_span then limit else failed_span / 2

unfoldable pub on_range_error : AdaptiveChunk → ℕ → Option ℕ → AdaptiveChunk
on_range_error c failed_span hint =
    if leb failed_span c.min
    then record c { streak = 0 }
    else let size' = Nat.max (next_size failed_span hint) c.min in
      record c { size = size'; ceiling = Nat.max (Nat.min c.ceiling size') c.min; streak = 0 }

unfoldable pub on_rate_limited : AdaptiveChunk → AdaptiveChunk
on_rate_limited c = record c { size = Nat.max (c.size / 2) c.min; streak = 0 }
