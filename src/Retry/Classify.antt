-- ===== src/Retry/Classify.antt =====
-- `classify_rpc_error` and `range_hint` of src/chain/retry.rs, over the text of the error.
use nox_indexer.Prelude.{ℕ, ◌==◌, Bool, ◌||◌, Option, none, some, List, [], ◌∷◌, if◌then◌else◌, ltb}
use nox_indexer.Prelude.Words.{u64_max}
use nox_indexer.Prelude.Text.{
  Text, text, is_digit, to_lowercase, contains_any, after_first, replace, take_while, keep,
  parse_uint,
}

-- How an error text influences the retry strategy.
pub data RpcErrorKind : Type 0 where
  range_too_large : Option ℕ → RpcErrorKind
  rate_limited : RpcErrorKind
  transient : RpcErrorKind

abbrev pub head_markers : List Text
head_markers =
    text "block range extends beyond current head block"
    ∷ text "invalid block range params"
    ∷ text "beyond current head"
    ∷ []

abbrev pub range_markers : List Text
range_markers =
    text "block range"
    ∷ text "ranges over"
    ∷ text "range is too"
    ∷ text "range too"
    ∷ text "range exceeds"
    ∷ text "exceed maximum"
    ∷ text "limited to a"
    ∷ text "too many blocks"
    ∷ text "more than 10000 results"
    ∷ text "query returned more than"
    ∷ text "response size exceeded"
    ∷ text "log response size"
    ∷ []

abbrev pub rate_markers : List Text
rate_markers =
    text "429"
    ∷ text "too many requests"
    ∷ text "rate limit"
    ∷ text "rate-limit"
    ∷ text "ratelimit"
    ∷ text "exceeded the quota"
    ∷ text "capacity exceeded"
    ∷ []

abbrev pub hint_prefixes : List Text
hint_prefixes =
    text "block range: " ∷ text "ranges over " ∷ text "limited to a " ∷ text "range of " ∷ []

-- `.filter(|n| *n > 0)`
abbrev positive : Option ℕ → Option ℕ
positive none = none
positive (some n) = if ltb 0 n then some n else none

abbrev is_digit_or_comma : ℕ → Bool
is_digit_or_comma c = is_digit c || c == b','

-- The number behind one prefix, its thousands separators dropped.
unfoldable pub hint_after : Text → Text → Option ℕ
hint_after prefix' lower = elim (after_first prefix' lower) [
  | none ↦ none
  | some rest ↦ positive (parse_uint u64_max (keep is_digit (take_while is_digit_or_comma rest)))
]

-- `PREFIXES.iter().find_map(..)`
unfoldable pub range_hint_of : List Text → Text → Option ℕ
unfolding hint_after
range_hint_of [] lower = none
range_hint_of (p ∷ ps) lower =
    let rest = range_hint_of ps lower in elim (hint_after p lower) [ none ↦ rest | some n ↦ some n ]

unfoldable pub range_hint : Text → Option ℕ
unfolding range_hint_of
range_hint lower = range_hint_of hint_prefixes lower

-- The loop that strips the head markers.
unfoldable pub strip_markers : List Text → Text → Text
strip_markers [] lower = lower
strip_markers (m ∷ ms) lower = strip_markers ms (replace m [] lower)

unfoldable pub classify_rpc_error : Text → RpcErrorKind
unfolding range_hint strip_markers
classify_rpc_error message =
    let lower = strip_markers head_markers (to_lowercase message) in
    if contains_any range_markers lower
    then range_too_large (range_hint lower)
    else if contains_any rate_markers lower
    then rate_limited
    else transient
