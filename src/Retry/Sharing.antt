-- ===== src/Retry/Sharing.antt =====
-- The one adaptive size is shared by the registry sync and the settlement sync (src/chain/mod.rs),
-- so an outcome can arrive for a request that is larger than the size at that time.
use native.Mathlib.Decide.{dec_le}
use nox_indexer.Prelude.{
  ℕ, zero, suc, ◌/◌, ◌<◌, ◌≤◌, ◌≡◌, ◌*◌, ◌⊎◌, ◌↔◌, inl, inr, Option, none, some, arith,
}
use nox_indexer.Retry.Chunk.{AdaptiveChunk, on_success, on_range_error, on_rate_limited}
use nox_indexer.Retry.Bounds.{IsValid}

-- A number of successes in a row.
abbrev pub succeed : ℕ → AdaptiveChunk → AdaptiveChunk
succeed zero c = c
succeed (suc n) c = succeed n (on_success c)

-- The rejection asks for more than a ceiling: by half of its span, or by an advertised limit below the
-- span.
abbrev pub AsksAbove : ℕ → ℕ → Option ℕ → Type 0
AsksAbove ceiling span none = ceiling < span / 2
AsksAbove ceiling span (some limit) =
    ((limit < span) × (ceiling < limit)) ⊎ ((span ≤ limit) × (ceiling < span / 2))

rejected-above :
    (c : AdaptiveChunk) (span : ℕ) (hint : Option ℕ)
    → IsValid c
    → AsksAbove c.ceiling span hint
    → (on_range_error c span hint).ceiling < (on_range_error c span hint).size
unfolding on_range_error
rejected-above c span none h above = ground arith
rejected-above c span (some limit) h (inl above) = ground arith
rejected-above c span (some limit) h (inr above) = ground arith

asked_above :
    (c : AdaptiveChunk) (span : ℕ) (hint : Option ℕ)
    → IsValid c
    → (on_range_error c span hint).ceiling < (on_range_error c span hint).size
    → AsksAbove c.ceiling span hint
unfolding on_range_error
asked_above c span none h above = ground arith
asked_above c span (some limit) h above = elim (dec_le span limit) [
  | yes p ↦ inr (p, ground arith)
  | no q ↦ inl (omega arith, ground arith)
]

above_again :
    (c : AdaptiveChunk) → c.ceiling < c.size → (on_success c).ceiling < (on_success c).size
unfolding on_success
above_again c h = ground arith

within_again :
    (c : AdaptiveChunk) → c.size ≤ c.ceiling → (on_success c).size ≤ (on_success c).ceiling
unfolding on_success
within_again c h = ground arith

succeed-above :
    (n : ℕ) (c : AdaptiveChunk) → c.ceiling < c.size → (succeed n c).ceiling < (succeed n c).size
succeed-above zero c h = h
succeed-above (suc n) c h = succeed-above n (on_success c) (above_again c h)

succeed-within :
    (n : ℕ) (c : AdaptiveChunk) → c.size ≤ c.ceiling → (succeed n c).size ≤ (succeed n c).ceiling
succeed-within zero c h = h
succeed-within (suc n) c h = succeed-within n (on_success c) (within_again c h)

-- From a size within its bounds, after a rejection of any span and any number of successes, the size is above the ceiling exactly if
-- the rejection, by half of its span or by an advertised limit below the span, asks for more than the
-- ceiling that was learned before.
pub stale_rejection_iff :
    (c : AdaptiveChunk) (span n : ℕ) (hint : Option ℕ)
    → IsValid c
    → ((succeed n (on_range_error c span hint)).ceiling
        < (succeed n (on_range_error c span hint)).size)
      ↔ AsksAbove c.ceiling span hint
stale_rejection_iff c span n hint h =
    let c' = on_range_error c span hint in
    (
      λ above. elim (dec_le c'.size c'.ceiling) [
        | yes p ↦ let q = succeed-within n c' p in absurd (omega arith)
        | no q ↦ asked_above c span hint h (omega arith)
      ],
      λ asks. succeed-above n c' (rejected-above c span hint h asks),
    )

-- A rate limit and the two successes after it bring the size back to what it was, less the bit that
-- halving drops, if the halved size is not below the floor.
rate_limit_recovers :
    (c : AdaptiveChunk)
    → IsValid c
    → c.min ≤ c.size / 2
    → (on_success (on_success (on_rate_limited c))).size ≡ 2 * (c.size / 2)
unfolding on_success on_rate_limited
rate_limit_recovers c h hs = ground arith
