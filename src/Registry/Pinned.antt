-- ===== src/Registry/Pinned.antt =====
-- What the membership check accepts.
use mathlib.Core.Bool.{xor}
use nox_indexer.Prelude.{
  ℕ, suc, ◌≡◌, refl, ap, ◌∙◌, sym, ◌↔◌, inl, inr, true, false, Option, none, List, [], ◌∷◌, length,
  arith, Bool-cases, Option-cases,
}
use native.Mathlib.Nat.{ℕ_set}
use mathlib.Core.Logic.{∥∥₁_elim}
use mathlib.Core.List.{Permᴰ, Perm}
use nox_indexer.Registry.Events.{Address, contains}
use nox_indexer.Registry.Fingerprint.{
  Bits, xor_into, no_fingerprint, bits_eq, Disagreement, fold_fingerprint,
  validate_pinned_membership,
}

pub bits_eq_iff : (a b : Bits) → (bits_eq a b ≡ true) ↔ (a ≡ b)
unfolding bits_eq xor
bits_eq_iff [] [] = (λ h. refl, λ h. refl)
bits_eq_iff [] (b ∷ bs) = (λ h. cc, λ h. cc)
bits_eq_iff (a ∷ as') [] = (λ h. cc, λ h. cc)
bits_eq_iff (a ∷ as') (b ∷ bs) = ground (arith, bits_eq_iff as' bs)

xor_into_comm : (f a b : Bits) → xor_into (xor_into f a) b ≡ xor_into (xor_into f b) a
unfolding xor_into xor
xor_into_comm [] a b = refl
xor_into_comm (x ∷ f) [] [] = refl
xor_into_comm (x ∷ f) [] (b ∷ bs) = refl
xor_into_comm (x ∷ f) (a ∷ as') [] = refl
xor_into_comm (x ∷ f) (a ∷ as') (b ∷ bs) = ground (arith, xor_into_comm f as' bs)

-- No address of the list stands in `seen`, and none comes twice.
abbrev pub IsNew : List Address → List Address → Type 0
IsNew seen [] = Unit
IsNew seen (a ∷ rest) = (contains seen a ≡ false) × IsNew (a ∷ seen) rest

abbrev pub IsDistinct : List Address → Type 0
IsDistinct [] = Unit
IsDistinct (a ∷ rest) = (contains rest a ≡ false) × IsDistinct rest

module _ (keccak256 : Address → Bits) where
  -- The XOR of the hashes of the addresses, from the last to the first.
  unfoldable pub xor_of_hashes : List Address → Bits
  xor_of_hashes [] = no_fingerprint
  xor_of_hashes (a ∷ rest) = xor_into (xor_of_hashes rest) (keccak256 a)

  unfoldable xor_all : Bits → List Address → Bits
  xor_all f [] = f
  xor_all f (a ∷ rest) = xor_all (xor_into f (keccak256 a)) rest

  xor_all_out :
      (f h : Bits) (rest : List Address) → xor_all (xor_into f h) rest ≡ xor_into (xor_all f rest) h
  unfolding xor_all
  xor_all_out f h [] = refl
  xor_all_out f h (a ∷ rest) =
      rw (xor_into_comm f h (keccak256 a)) (xor_all_out (xor_into f (keccak256 a)) h rest)

  xor_all-eq : (rest : List Address) → xor_all no_fingerprint rest ≡ xor_of_hashes rest
  unfolding xor_all xor_of_hashes
  xor_all-eq [] = refl
  xor_all-eq (a ∷ rest) =
      xor_all_out no_fingerprint (keccak256 a) rest
      ∙ ap (λ f. xor_into f (keccak256 a)) (xor_all-eq rest)

  fold_none :
      (seen : List Address) (f : Bits) (rest : List Address)
      → (fold_fingerprint keccak256 seen f rest).0 ≡ none
      → IsNew seen rest × ((fold_fingerprint keccak256 seen f rest).1 ≡ xor_all f rest)
  unfolding fold_fingerprint xor_all
  fold_none seen f [] e = (tt, refl)
  fold_none seen f (a ∷ rest) e = elim (Bool-cases (contains seen a)) [
    | inl old ↦ let e' = rw (old, fold_fingerprint) at e in cc
    | inr new ↦
        let (later, same) =
          fold_none (a ∷ seen) (xor_into f (keccak256 a)) rest (rw (new, fold_fingerprint) at e) in
        ((new, later), rw (new, fold_fingerprint) same)
  ]

  fold_new :
      (seen : List Address) (f : Bits) (rest : List Address)
      → IsNew seen rest
      → fold_fingerprint keccak256 seen f rest ≡ (none, xor_all f rest)
  unfolding fold_fingerprint xor_all
  fold_new seen f [] h = refl
  fold_new seen f (a ∷ rest) h =
      rw (h.0, fold_fingerprint) (fold_new (a ∷ seen) (xor_into f (keccak256 a)) rest h.1)

  -- The check accepts a list exactly when no address comes twice, the registry counts as many, and
  -- the XOR of the hashes is the registry's fingerprint.
  pub validate_pinned_membership_iff :
      (addresses : List Address) (count : ℕ) (fingerprint : Bits)
      → (validate_pinned_membership keccak256 addresses count fingerprint ≡ none) ↔ (
          IsNew [] addresses × (count ≡ length addresses) × (xor_of_hashes addresses ≡ fingerprint))
  unfolding validate_pinned_membership
  validate_pinned_membership_iff addresses count fingerprint = (accepted, sufficient)
    where
      accepted :
          validate_pinned_membership keccak256 addresses count fingerprint ≡ none
          → IsNew [] addresses
            × (count ≡ length addresses)
            × (xor_of_hashes addresses ≡ fingerprint)
      accepted e =
          let folded = fold_fingerprint keccak256 [] no_fingerprint addresses in
          elim (Option-cases folded.0) [
            | inr (a, d) ↦ let e' = rw (d, validate_pinned_membership) at e in cc
            | inl d ↦
                let e' = rw (d, validate_pinned_membership) at e in
                let (fresh, same) = fold_none [] no_fingerprint addresses d in
                (
                  fresh,
                  ground arith,
                  ground (arith, bits_eq_iff folded.1 fingerprint, same, xor_all-eq addresses),
                )
          ]

      sufficient :
          IsNew [] addresses × (count ≡ length addresses) × (xor_of_hashes addresses ≡ fingerprint)
          → validate_pinned_membership keccak256 addresses count fingerprint ≡ none
      sufficient (fresh, counted, same) =
          let folded = fold_fingerprint keccak256 [] no_fingerprint addresses in
          let whole = fold_new [] no_fingerprint addresses fresh in
          let once : folded.0 ≡ none = ap (λ (p : Option Address × Bits). p.0) whole in
          let total : folded.1 ≡ xor_all no_fingerprint addresses =
            ap (λ (p : Option Address × Bits). p.1) whole in
          rw (once, validate_pinned_membership)
            (ground (arith, bits_eq_iff folded.1 fingerprint, xor_all-eq addresses))

  xor_of_hashes-Permᴰ : {xs ys : List Address} → Permᴰ xs ys → xor_of_hashes xs ≡ xor_of_hashes ys
  unfolding xor_of_hashes
  xor_of_hashes-Permᴰ Permᴰ.nil = refl
  xor_of_hashes-Permᴰ (Permᴰ.cons {a = a} {b = b} e p) = ground (arith, xor_of_hashes-Permᴰ p)
  xor_of_hashes-Permᴰ (Permᴰ.swap {a = a} {b = b} {a' = a'} {b' = b'} {l = l} e f) =
      ground (arith, xor_into_comm (xor_of_hashes l) (keccak256 a) (keccak256 b))
  xor_of_hashes-Permᴰ (Permᴰ.trans p q) = xor_of_hashes-Permᴰ p ∙ xor_of_hashes-Permᴰ q

length-Permᴰ : {xs ys : List Address} → Permᴰ xs ys → length xs ≡ length ys
length-Permᴰ Permᴰ.nil = refl
length-Permᴰ (Permᴰ.cons e p) = ap suc (length-Permᴰ p)
length-Permᴰ (Permᴰ.swap e f) = refl
length-Permᴰ (Permᴰ.trans p q) = length-Permᴰ p ∙ length-Permᴰ q

contains-Permᴰ : {xs ys : List Address} (a : Address) → Permᴰ xs ys → contains xs a ≡ contains ys a
unfolding contains
contains-Permᴰ x Permᴰ.nil = refl
contains-Permᴰ x (Permᴰ.cons {a = a} {b = b} e p) = ground (arith, contains-Permᴰ x p)
contains-Permᴰ x (Permᴰ.swap {a = a} {b = b} {a' = a'} {b' = b'} {l = l} e f) = ground arith
contains-Permᴰ x (Permᴰ.trans p q) = contains-Permᴰ x p ∙ contains-Permᴰ x q

IsDistinct-Permᴰ : {xs ys : List Address} → Permᴰ xs ys → IsDistinct xs → IsDistinct ys
unfolding contains
IsDistinct-Permᴰ Permᴰ.nil d = tt
IsDistinct-Permᴰ (Permᴰ.cons {a = a} {b = b} {l₁ = l₁} {l₂ = l₂} e p) d =
    (rw (← e) (sym (contains-Permᴰ a p) ∙ d.0), IsDistinct-Permᴰ p d.1)
IsDistinct-Permᴰ (Permᴰ.swap {a = a} {b = b} {a' = a'} {b' = b'} {l = l} e f) d = ground arith
IsDistinct-Permᴰ (Permᴰ.trans p q) d = IsDistinct-Permᴰ q (IsDistinct-Permᴰ p d)

IsNew-absent :
    (a : Address) (seen rest : List Address)
    → contains seen a ≡ true
    → IsNew seen rest
    → contains rest a ≡ false
unfolding contains
IsNew-absent a seen [] e h = refl
IsNew-absent a seen (b ∷ rest) e h = ground (arith, IsNew-absent a (b ∷ seen) rest)

IsNew-IsDistinct : (seen rest : List Address) → IsNew seen rest → IsDistinct rest
unfolding contains
IsNew-IsDistinct seen [] h = tt
IsNew-IsDistinct seen (a ∷ rest) h =
    (IsNew-absent a (a ∷ seen) rest (ground arith) h.1, IsNew-IsDistinct (a ∷ seen) rest h.1)

IsDistinct-IsNew :
    (seen rest : List Address)
    → ((x : Address) → contains rest x ≡ true → contains seen x ≡ false)
    → IsDistinct rest
    → IsNew seen rest
unfolding contains
IsDistinct-IsNew seen [] apart d = tt
IsDistinct-IsNew seen (a ∷ rest) apart d =
    (apart a (ground arith), IsDistinct-IsNew (a ∷ seen) rest (λ x e. ground (arith, apart x)) d.1)

IsNew-Permᴰ : {xs ys : List Address} → Permᴰ xs ys → IsNew [] xs → IsNew [] ys
unfolding contains
IsNew-Permᴰ {xs} {ys} p h =
    IsDistinct-IsNew [] ys (λ x e. refl) (IsDistinct-Permᴰ p (IsNew-IsDistinct [] xs h))

-- The order in which the members are listed does not matter to the check.
pub validate_pinned_membership-Perm :
    (keccak256 : Address → Bits) (count : ℕ) (fingerprint : Bits) {xs ys : List Address}
    → Perm xs ys
    → validate_pinned_membership keccak256 xs count fingerprint ≡ none
    → validate_pinned_membership keccak256 ys count fingerprint ≡ none
validate_pinned_membership-Perm keccak256 count fingerprint {xs} {ys} p e =
    let outcomes : IsSet (Option Disagreement) = hlevel ℕ_set in
    ∥∥₁_elim p (outcomes _ _) λ q.
      let (fresh, counted, same) =
        (validate_pinned_membership_iff keccak256 xs count fingerprint).0 e in
      (validate_pinned_membership_iff keccak256 ys count fingerprint).1 (
        IsNew-Permᴰ q fresh,
        counted ∙ length-Permᴰ q,
        sym (xor_of_hashes-Permᴰ keccak256 q) ∙ same,
      )
