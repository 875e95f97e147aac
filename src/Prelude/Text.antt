-- ===== src/Prelude/Text.antt =====
-- Text as the list of its code points, with the string methods that the program calls. Case folding
-- is that of ASCII; a code point above it is left alone.
use Prim.Native.String.{String}
use Prim.Native.Char.{code}
use Prim.Native.Nat.{ℕ, zero, suc, ◌+◌, ◌-◌, ◌*◌, ◌/◌, ◌%◌}
use mathlib.Core.Path.{◌≡◌, refl}
use mathlib.Core.Logic.{◌↔◌}
use mathlib.Core.Bool.{Bool, true, false, ◌&&◌, ◌||◌}
use mathlib.Core.Option.{Option, none, some}
use mathlib.Core.List.{List, [], ◌∷◌, ◌++◌, map}
use native.Mathlib.Omega.{arith}
use nox_indexer.Prelude.Tests.{leb, ◌==◌, if◌then◌else◌}
use nox_indexer.Prelude.Lists.{length}

abbrev pub Text : Type 0
Text = List ℕ

-- The code points of a literal.
abbrev pub text : String → Text
text String.[] = []
text (String.◌∷◌ c s) = code c ∷ text s

abbrev pub text_eq : Text → Text → Bool
text_eq [] [] = true
text_eq [] (d ∷ t) = false
text_eq (c ∷ s) [] = false
text_eq (c ∷ s) (d ∷ t) = c == d && text_eq s t

abbrev pub is_empty {ℓ} : {A : Type ℓ} → List A → Bool
is_empty [] = true
is_empty (c ∷ s) = false

abbrev pub is_digit : ℕ → Bool
is_digit c = leb b'0' c && leb c b'9'

abbrev pub lower_char : ℕ → ℕ
lower_char c = if leb b'A' c && leb c b'Z' then c + 32 else c

unfoldable pub to_lowercase : Text → Text
to_lowercase = map lower_char

unfoldable pub starts_with : Text → Text → Bool
starts_with [] s = true
starts_with (p ∷ ps) [] = false
starts_with (p ∷ ps) (c ∷ s) = p == c && starts_with ps s

-- `s.contains(pattern)`
unfoldable pub contains : Text → Text → Bool
unfolding starts_with
contains pattern' [] = is_empty pattern'
contains pattern' (c ∷ s) = starts_with pattern' (c ∷ s) || contains pattern' s

unfoldable pub contains_any : List Text → Text → Bool
unfolding contains
contains_any [] s = false
contains_any (p ∷ ps) s = contains p s || contains_any ps s

abbrev pub drop_text : ℕ → Text → Text
drop_text zero s = s
drop_text (suc n) [] = []
drop_text (suc n) (c ∷ s) = drop_text n s

-- What follows the first occurrence: `&s[s.find(pattern)? + pattern.len()..]`
unfoldable pub after_first : Text → Text → Option Text
unfolding starts_with
after_first pattern' [] = if is_empty pattern' then some [] else none
after_first pattern' (c ∷ s) =
    let rest = after_first pattern' s in
    if starts_with pattern' (c ∷ s) then some (drop_text (length pattern') (c ∷ s)) else rest

-- `s.replace(pattern, by)` for a non-empty pattern; `skip` code points belong to the last match.
unfoldable pub replace_from : Text → Text → ℕ → Text → Text
unfolding starts_with
replace_from pattern' by skip [] = []
replace_from pattern' by (suc skip) (c ∷ s) = replace_from pattern' by skip s
replace_from pattern' by zero (c ∷ s) = elim (starts_with pattern' (c ∷ s)) [
  | true ↦ by ++ replace_from pattern' by (length pattern' - 1) s
  | false ↦ c ∷ replace_from pattern' by zero s
]

unfoldable pub replace : Text → Text → Text → Text
unfolding replace_from
replace pattern' by s = replace_from pattern' by 0 s

-- The longest prefix whose code points pass the test.
unfoldable pub take_while : (ℕ → Bool) → Text → Text
take_while p [] = []
take_while p (c ∷ s) = if p c then c ∷ take_while p s else []

unfoldable pub keep : (ℕ → Bool) → Text → Text
keep p [] = []
keep p (c ∷ s) = if p c then c ∷ keep p s else keep p s

unfoldable pub digits_value : ℕ → Text → ℕ
digits_value acc [] = acc
digits_value acc (c ∷ s) = digits_value (acc * 10 + (c - b'0')) s

unfoldable pub all_digits : Text → Bool
all_digits [] = true
all_digits (c ∷ s) = is_digit c && all_digits s

-- Digits only, at least one, within the type's range.
abbrev pub parse_digits : ℕ → Text → Option ℕ
parse_digits largest [] = none
parse_digits largest (c ∷ s) =
    let v = digits_value 0 (c ∷ s) in if all_digits (c ∷ s) && leb v largest then some v else none

-- `s.parse::<uN>().ok()`: one leading plus sign is accepted.
unfoldable pub parse_uint : ℕ → Text → Option ℕ
unfolding digits_value all_digits
parse_uint largest [] = none
parse_uint largest (c ∷ s) =
    if c == b'+' then parse_digits largest s else parse_digits largest (c ∷ s)

-- `{n}` in a format string, on fuel for the digits.
unfoldable pub show_digits : ℕ → ℕ → Text → Text
show_digits zero n rest = rest
show_digits (suc f) n rest =
    let d = (n % 10 + b'0') ∷ rest in
    let more = show_digits f (n / 10) ((n % 10 + b'0') ∷ rest) in if n / 10 == 0 then d else more

-- Twenty digits hold every `u64`.
unfoldable pub show_u64 : ℕ → Text
unfolding show_digits
show_u64 n = show_digits 20 n []

pub text_eq_iff : (s t : Text) → (text_eq s t ≡ true) ↔ (s ≡ t)
text_eq_iff [] [] = (λ h. refl, λ h. refl)
text_eq_iff [] (d ∷ t) = (λ h. cc, λ h. cc)
text_eq_iff (c ∷ s) [] = (λ h. cc, λ h. cc)
text_eq_iff (c ∷ s) (d ∷ t) = ground (arith, text_eq_iff s t)

pub to_lowercase-idempotent : (s : Text) → to_lowercase (to_lowercase s) ≡ to_lowercase s
unfolding to_lowercase
to_lowercase-idempotent [] = refl
to_lowercase-idempotent (c ∷ s) = ground (arith, to_lowercase-idempotent s)
