-- ===== src/Prelude/Maps.antt =====
-- Maps from text to values, `HashMap<String, V>`, as association lists.
use nox_indexer.Prelude.Tests.{Bool-cases, if◌then◌else◌}
use nox_indexer.Prelude.Text.{Text, text_eq, text_eq_iff}
use mathlib.Core.Logic.{inl, inr}
use mathlib.Core.Path.{◌≡◌, refl, sym, ap, ◌∙◌}
use mathlib.Core.Bool.{Bool, true, false, ◌||◌}
use native.Mathlib.Omega.{arith}
use mathlib.Core.Option.{Option, none, some}
use mathlib.Core.List.{List, [], ◌∷◌}

abbrev pub Map {ℓ} : Type ℓ → Type ℓ
Map V = List (Text × V)

-- `map.get(key)`
unfoldable pub get {ℓ} : {V : Type ℓ} → Text → Map V → Option V
get key [] = none
get key ((l, v) ∷ rest) = if text_eq key l then some v else get key rest

-- `map.remove(key)`
unfoldable pub remove {ℓ} : {V : Type ℓ} → Text → Map V → Map V
remove key [] = []
remove key ((l, v) ∷ rest) = if text_eq key l then remove key rest else (l, v) ∷ remove key rest

-- `map.insert(key, value)`
unfoldable pub put {ℓ} : {V : Type ℓ} → Text → V → Map V → Map V
unfolding remove
put key value m = (key, value) ∷ remove key m

-- `if let Some(v) = map.get_mut(key) { *v = f(v) }`
unfoldable pub modify {ℓ} : {V : Type ℓ} → Text → (V → V) → Map V → Map V
modify key f [] = []
modify key f ((l, v) ∷ rest) = (l, if text_eq key l then f v else v) ∷ modify key f rest

-- Every entry changed, by its key.
unfoldable pub map_entries {ℓ} : {V : Type ℓ} → (Text → V → V) → Map V → Map V
map_entries f [] = []
map_entries f ((l, v) ∷ rest) = (l, f l v) ∷ map_entries f rest

-- `map.keys()`
unfoldable pub keys {ℓ} : {V : Type ℓ} → Map V → List Text
keys [] = []
keys ((k, v) ∷ rest) = k ∷ keys rest

unfoldable pub has_key : List Text → Text → Bool
has_key [] k = false
has_key (l ∷ ls) k = text_eq l k || has_key ls k

abbrev pub option_map {ℓ κ} : {A : Type ℓ} {B : Type κ} → (A → B) → Option A → Option B
option_map f none = none
option_map f (some a) = some (f a)

pub text_eq_refl : (s : Text) → text_eq s s ≡ true
text_eq_refl s = (text_eq_iff s s).1 refl

pub text_eq_sym : (s t : Text) → text_eq s t ≡ text_eq t s
text_eq_sym [] [] = refl
text_eq_sym [] (d ∷ t) = refl
text_eq_sym (c ∷ s) [] = refl
text_eq_sym (c ∷ s) (d ∷ t) = ground (arith, text_eq_sym s t)

-- A key that equals one and not another tells the two apart.
same_key : (k l n : Text) → text_eq l n ≡ true → text_eq k n ≡ text_eq k l
same_key k l n e = ap (λ t. text_eq k t) (sym ((text_eq_iff l n).0 e))

both_keys : (k l n : Text) → text_eq k l ≡ true → text_eq k n ≡ true → text_eq l n ≡ true
both_keys k l n e h = rw (← (text_eq_iff k l).0 e) h

module _ {ℓ} {V : Type ℓ} where
  removed_head :
      (kl kn : Bool) (w : Option V) (rest : Option V)
      → kn ≡ kl
      → (if kl then none else rest) ≡ (if kl then none else if kn then w else rest)
  removed_head true kn w rest e = refl
  removed_head false true w rest e = cc
  removed_head false false w rest e = refl

  kept_head :
      (kl kn : Bool) (w : Option V) (rest later : Option V)
      → (kl ≡ true → kn ≡ true → ⊥)
      → later ≡ (if kl then none else rest)
      → (if kn then w else later) ≡ (if kl then none else if kn then w else rest)
  kept_head true true w rest later apart e = absurd (apart refl refl)
  kept_head true false w rest later apart e = e
  kept_head false true w rest later apart e = refl
  kept_head false false w rest later apart e = e

  abbrev nothing : Option V
  nothing = none

  none_either : (b : Bool) → nothing ≡ (if b then nothing else nothing)
  none_either true = refl
  none_either false = refl

  pub get-remove :
      (k l : Text) (m : Map V) → get k (remove l m) ≡ (if text_eq k l then none else get k m)
  unfolding get remove
  get-remove k l [] = none_either (text_eq k l)
  get-remove k l ((n, w) ∷ rest) = elim (Bool-cases (text_eq l n)) [
    | inl e ↦
        rw (e, remove)
          (get-remove k l rest
            ∙ removed_head (text_eq k l) (text_eq k n) (some w) (get k rest) (same_key k l n e))
    | inr e ↦
        rw (e, remove)
          (kept_head (text_eq k l) (text_eq k n) (some w) (get k rest) (get k (remove l rest))
            (λ h g. let both = both_keys k l n h g in absurd cc) (get-remove k l rest))
  ]

  put_cases :
      (b : Bool) (v rest : Option V)
      → (if b then v else if b then none else rest) ≡ (if b then v else rest)
  put_cases true v rest = refl
  put_cases false v rest = refl

  pub get-put :
      (k l : Text) (v : V) (m : Map V)
      → get k (put l v m) ≡ (if text_eq k l then some v else get k m)
  unfolding get put
  get-put k l v m =
      ap (λ rest. if text_eq k l then some v else rest) (get-remove k l m)
      ∙ put_cases (text_eq k l) (some v) (get k m)

  modified_head :
      (kl kn ln : Bool) (f : V → V) (w : V) (rest later : Option V)
      → (ln ≡ true → kn ≡ kl)
      → (kl ≡ true → kn ≡ true → ln ≡ true)
      → later ≡ (if kl then option_map f rest else rest)
      → (if kn then some (if ln then f w else w) else later)
        ≡ (if kl then option_map f (if kn then some w else rest) else if kn then some w else rest)
  modified_head true true true f w rest later same both e = refl
  modified_head true true false f w rest later same both e = let h = both refl refl in cc
  modified_head true false ln f w rest later same both e = e
  modified_head false true true f w rest later same both e = let h = same refl in cc
  modified_head false true false f w rest later same both e = refl
  modified_head false false ln f w rest later same both e = e

  pub get-modify :
      (k l : Text) (f : V → V) (m : Map V)
      → get k (modify l f m) ≡ (if text_eq k l then option_map f (get k m) else get k m)
  unfolding get modify
  get-modify k l f [] = none_either (text_eq k l)
  get-modify k l f ((n, w) ∷ rest) =
      modified_head (text_eq k l) (text_eq k n) (text_eq l n) f w (get k rest)
        (get k (modify l f rest)) (same_key k l n) (both_keys k l n) (get-modify k l f rest)

  mapped_head :
      (b : Bool) (k n : Text) (f : Text → V → V) (w : V) (rest : Option V)
      → text_eq k n ≡ b
      → (if b then some (f n w) else option_map (f k) rest)
        ≡ option_map (f k) (if b then some w else rest)
  mapped_head true k n f w rest e = rw ((text_eq_iff k n).0 e) refl
  mapped_head false k n f w rest e = refl

  pub get-map_entries :
      (k : Text) (f : Text → V → V) (m : Map V)
      → get k (map_entries f m) ≡ option_map (f k) (get k m)
  unfolding get map_entries
  get-map_entries k f [] = refl
  get-map_entries k f ((n, w) ∷ rest) =
      ap (λ later. if text_eq k n then some (f n w) else later) (get-map_entries k f rest)
      ∙ mapped_head (text_eq k n) k n f w (get k rest) refl

  abbrev pub is_some : Option V → Bool
  is_some none = false
  is_some (some v) = true

  some_head :
      (b : Bool) (v : V) (o : Option V) → (b || is_some o) ≡ is_some (if b then some v else o)
  some_head true v o = refl
  some_head false v o = refl

  -- The keys are those that have a value.
  pub has_key-keys : (m : Map V) (k : Text) → has_key (keys m) k ≡ is_some (get k m)
  unfolding has_key keys get
  has_key-keys [] k = refl
  has_key-keys ((n, w) ∷ rest) k =
      rw (has_key-keys rest k, text_eq_sym n k) (some_head (text_eq k n) w (get k rest))
