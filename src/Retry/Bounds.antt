-- ===== src/Retry/Bounds.antt =====
-- The bounds that every method of `AdaptiveChunk` keeps, and the progress that a rejection makes.
use Prim.Native.Nat
use nox_indexer.Prelude.{◌∙◌, ℕ, ◌≤◌, ◌<◌, ◌≡◌, Option, none, some, arith, List, [], ◌∷◌, refl}
use nox_indexer.Prelude.Words.{u64_mod}
use nox_indexer.Retry.Chunk.{AdaptiveChunk, new, on_success, on_range_error, on_rate_limited}

pub record IsValid (c : AdaptiveChunk) : Type 0 where
  pub positive : 1 ≤ c.min
  pub floor : c.min ≤ c.size
  pub within : c.size ≤ c.ceiling
  pub word : c.ceiling < u64_mod

pub new-IsValid :
    (initial low high : ℕ) → low < u64_mod → high < u64_mod → IsValid (new initial low high)
unfolding new
new-IsValid initial low high hl hh = ground arith

pub on_success-IsValid : (c : AdaptiveChunk) → IsValid c → IsValid (on_success c)
unfolding on_success
on_success-IsValid c h = ground arith

-- A range error keeps the bounds if the rejected span is at most the current size.
pub on_range_error-IsValid :
    (c : AdaptiveChunk) (span : ℕ) (hint : Option ℕ)
    → IsValid c
    → span ≤ c.size
    → IsValid (on_range_error c span hint)
unfolding on_range_error
on_range_error-IsValid c span none h hs = ground arith
on_range_error-IsValid c span (some limit) h hs = ground arith

pub on_rate_limited-IsValid : (c : AdaptiveChunk) → IsValid c → IsValid (on_rate_limited c)
unfolding on_rate_limited
on_rate_limited-IsValid c h = ground arith

-- A rejected span above the floor always leads to a strictly smaller request.
pub on_range_error-shrinks :
    (c : AdaptiveChunk) (span : ℕ) (hint : Option ℕ)
    → c.min < span
    → (on_range_error c span hint).size < span
unfolding on_range_error
on_range_error-shrinks c span none h = ground arith
on_range_error-shrinks c span (some limit) h = ground arith

-- An error of a request that fits never makes the next request larger.
pub on_range_error-size-le :
    (c : AdaptiveChunk) (span : ℕ) (hint : Option ℕ)
    → IsValid c
    → span ≤ c.size
    → (on_range_error c span hint).size ≤ c.size
unfolding on_range_error
on_range_error-size-le c span none h hs = ground arith
on_range_error-size-le c span (some limit) h hs = ground arith

pub on_rate_limited-size-le : (c : AdaptiveChunk) → IsValid c → (on_rate_limited c).size ≤ c.size
unfolding on_rate_limited
on_rate_limited-size-le c h = ground arith

-- No method but `new` changes the floor, and no method raises the ceiling.
pub on_success_limits :
    (c : AdaptiveChunk) → ((on_success c).min ≡ c.min) × ((on_success c).ceiling ≡ c.ceiling)
unfolding on_success
on_success_limits c = ground arith

-- One outcome of a request, as the caller reports it.
pub data Outcome : Type 0 where
  success : Outcome
  range_error : ℕ → Option ℕ → Outcome
  rate_limited : Outcome

unfoldable pub record_outcome : AdaptiveChunk → Outcome → AdaptiveChunk
record_outcome c success = on_success c
record_outcome c (range_error span hint) = on_range_error c span hint
record_outcome c rate_limited = on_rate_limited c

unfoldable pub record_all : AdaptiveChunk → List Outcome → AdaptiveChunk
record_all c [] = c
record_all c (o ∷ os) = record_all (record_outcome c o) os

-- An outcome of a request that was no larger than the size at the time of its outcome.
abbrev pub Fits : AdaptiveChunk → Outcome → Type 0
Fits c success = Unit
Fits c (range_error span hint) = span ≤ c.size
Fits c rate_limited = Unit

abbrev pub AllFit : AdaptiveChunk → List Outcome → Type 0
AllFit c [] = Unit
AllFit c (o ∷ os) = Fits c o × AllFit (record_outcome c o) os

pub record_outcome-IsValid :
    (c : AdaptiveChunk) (o : Outcome) → IsValid c → Fits c o → IsValid (record_outcome c o)
unfolding record_outcome
record_outcome-IsValid c success h f = on_success-IsValid c h
record_outcome-IsValid c (range_error span hint) h f = on_range_error-IsValid c span hint h f
record_outcome-IsValid c rate_limited h f = on_rate_limited-IsValid c h

pub record_outcome-ceiling-le :
    (c : AdaptiveChunk) (o : Outcome)
    → IsValid c
    → Fits c o
    → ((record_outcome c o).ceiling ≤ c.ceiling) × ((record_outcome c o).min ≡ c.min)
unfolding record_outcome on_success on_range_error on_rate_limited
record_outcome-ceiling-le c success h f = ground arith
record_outcome-ceiling-le c (range_error span none) h f = ground arith
record_outcome-ceiling-le c (range_error span (some limit)) h f = ground arith
record_outcome-ceiling-le c rate_limited h f = ground arith

-- From a size within its bounds and along any sequence of outcomes of requests that fit, the bounds
-- hold, the floor stays, and the ceiling never rises.
pub record_all_bounds :
    (c : AdaptiveChunk) (os : List Outcome)
    → IsValid c
    → AllFit c os
    → IsValid (record_all c os)
      × ((record_all c os).ceiling ≤ c.ceiling)
      × ((record_all c os).min ≡ c.min)
unfolding record_all
record_all_bounds c [] h f = (h, omega arith, refl)
record_all_bounds c (o ∷ os) h f =
    let step = record_outcome-ceiling-le c o h f.0 in
    let rest = record_all_bounds (record_outcome c o) os (record_outcome-IsValid c o h f.0) f.1 in
    (rest.0, omega (arith, step.0, rest.1), rest.2 ∙ step.1)

learned_ceiling :
    (c : AdaptiveChunk) (span limit : ℕ)
    → IsValid c
    → c.min < span
    → limit < span
    → (on_range_error c span (some limit)).ceiling ≤ Nat.max limit c.min
unfolding on_range_error
learned_ceiling c span limit h hm hl = ground arith

-- Once a provider has rejected a span above the floor with an advertised limit below it, no
-- sequence of later outcomes of requests that fit brings the size above that limit (or the floor,
-- if the limit is below the floor).
pub learned_limit_holds :
    (c : AdaptiveChunk) (span limit : ℕ) (os : List Outcome)
    → IsValid c
    → span ≤ c.size
    → c.min < span
    → limit < span
    → AllFit (on_range_error c span (some limit)) os
    → (record_all (on_range_error c span (some limit)) os).size ≤ Nat.max limit c.min
learned_limit_holds c span limit os h hs hm hl f =
    let bounds =
      record_all_bounds (on_range_error c span (some limit)) os
        (on_range_error-IsValid c span (some limit) h hs) f in
    omega (arith, bounds.0.within, bounds.1, learned_ceiling c span limit h hm hl)
