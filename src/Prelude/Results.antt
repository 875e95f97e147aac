-- ===== src/Prelude/Results.antt =====
-- A result whose error is a text, `Result<T, String>`, with the monad of the `?` operator.
use nox_indexer.Prelude.Text.{Text}
use mathlib.Core.Path.{◌≡◌, refl}
use mathlib.Core.Logic.{◌⊎◌, inl, inr}
use mathlib.Core.List.{◌++◌}

pub data Result {ℓ} (A : Type ℓ) : Type ℓ where
  ok : A → Result A
  err : Text → Result A

infixl 5 ◌>>=◌
abbrev pub ◌>>=◌ {ℓ κ} : {A : Type ℓ} {B : Type κ} → Result A → (A → Result B) → Result B
ok a >>= f = f a
err e >>= f = err e

-- `.map_err(|e| format!("{label}{e}"))`
abbrev pub labelled {ℓ} : {A : Type ℓ} → Text → Result A → Result A
labelled label (ok a) = ok a
labelled label (err e) = err (label ++ e)

pub Result-cases {ℓ} :
    {A : Type ℓ} (r : Result A) → ((a : A) × (r ≡ ok a)) ⊎ ((e : Text) × (r ≡ err e))
Result-cases (ok a) = inl (a, refl)
Result-cases (err e) = inr (e, refl)
