-- ===== src/Retry/Hints.antt =====
-- What a classification promises to the caller.
use nox_indexer.Prelude.{ℕ, ◌≤◌, ◌<◌, ◌≡◌, some, List, [], ◌∷◌, arith, inl, inr, Option-cases}
use nox_indexer.Prelude.Words.{u64_max}
use nox_indexer.Prelude.Text.{Text, to_lowercase, to_lowercase-idempotent, parse_uint}
use nox_indexer.Retry.Classify.{
  range_too_large, hint_after, hint_prefixes, head_markers, range_hint_of, range_hint,
  strip_markers, classify_rpc_error,
}

parse_uint-le : (largest : ℕ) (s : Text) (n : ℕ) → parse_uint largest s ≡ some n → n ≤ largest
unfolding parse_uint
parse_uint-le largest [] n h = cc
parse_uint-le largest (c ∷ []) n h = ground arith
parse_uint-le largest (c ∷ d ∷ s) n h = ground arith

hint_after_bounds : (p s : Text) (n : ℕ) → hint_after p s ≡ some n → (0 < n) × (n ≤ u64_max)
unfolding hint_after
hint_after_bounds p s n h = grind (arith, parse_uint-le)

range_hint_of_bounds :
    (ps : List Text) (s : Text) (n : ℕ) → range_hint_of ps s ≡ some n → (0 < n) × (n ≤ u64_max)
unfolding range_hint_of
range_hint_of_bounds [] s n h = cc
range_hint_of_bounds (p ∷ ps) s n h = elim (Option-cases (hint_after p s)) [
  | inl e ↦ range_hint_of_bounds ps s n (rw (e, range_hint_of) at h)
  | inr (m, e) ↦ hint_after_bounds p s n (ground arith)
]

-- A limit that a classification reports is a positive `u64`.
pub classify_rpc_error_hint :
    (message : Text) (n : ℕ)
    → classify_rpc_error message ≡ range_too_large (some n)
    → (0 < n) × (n ≤ u64_max)
unfolding classify_rpc_error range_hint
classify_rpc_error_hint message n h =
    range_hint_of_bounds hint_prefixes (strip_markers head_markers (to_lowercase message)) n
      (ground arith)

-- The classification does not depend on the case of the letters.
pub classify_rpc_error-to_lowercase :
    (message : Text) → classify_rpc_error (to_lowercase message) ≡ classify_rpc_error message
unfolding classify_rpc_error
classify_rpc_error-to_lowercase message = rw (to_lowercase-idempotent message)
