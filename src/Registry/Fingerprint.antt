-- ===== src/Registry/Fingerprint.antt =====
-- `validate_pinned_membership` of src/chain/mod.rs. The hash of the addresses is not under the
-- repository: `keccak256` is an argument. A 32-byte fingerprint is the list of its bits, on which
-- XOR acts as it does on the bytes.
use mathlib.Core.Bool.{xor}
use nox_indexer.Prelude.{
  ℕ, ◌==◌, Bool, true, false, ◌&&◌, not, Option, none, some, List, [], ◌∷◌, if◌then◌else◌, length,
}
use nox_indexer.Registry.Events.{Address, contains}

abbrev pub Bits : Type 0
Bits = List Bool

-- `for (accumulator, byte) in fingerprint.iter_mut().zip(hash) { *accumulator ^= byte }`
unfoldable pub xor_into : Bits → Bits → Bits
xor_into [] hash = []
xor_into (a ∷ xs) [] = a ∷ xs
xor_into (a ∷ xs) (b ∷ ys) = xor a b ∷ xor_into xs ys

abbrev pub zeros : ℕ → Bits
zeros ℕ.zero = []
zeros (ℕ.suc n) = false ∷ zeros n

-- `[0_u8; 32]`
abbrev pub no_fingerprint : Bits
no_fingerprint = zeros 256

unfoldable pub bits_eq : Bits → Bits → Bool
bits_eq [] [] = true
bits_eq [] (b ∷ ys) = false
bits_eq (a ∷ xs) [] = false
bits_eq (a ∷ xs) (b ∷ ys) = not (xor a b) && bits_eq xs ys

-- Why a member set is refused.
pub data Disagreement : Type 0 where
  duplicate_address : Address → Disagreement
  count_differs : ℕ → ℕ → Disagreement
  fingerprint_differs : Disagreement

module _ (keccak256 : Address → Bits) where
  -- The loop over the addresses: the fingerprint, or the first address that comes twice.
  unfoldable pub fold_fingerprint : List Address → Bits → List Address → Option Address × Bits
  unfolding xor_into contains
  fold_fingerprint seen fingerprint [] = (none, fingerprint)
  fold_fingerprint seen fingerprint (a ∷ xs) =
      let rest = fold_fingerprint (a ∷ seen) (xor_into fingerprint (keccak256 a)) xs in
      if contains seen a then (some a, fingerprint) else rest

  -- `none` is agreement.
  unfoldable pub validate_pinned_membership : List Address → ℕ → Bits → Option Disagreement
  unfolding fold_fingerprint bits_eq
  validate_pinned_membership addresses expected_count expected_fingerprint =
      let (duplicate, fingerprint) = fold_fingerprint [] no_fingerprint addresses in
      elim duplicate [
        | some a ↦ some (duplicate_address a)
        | none ↦
            if not (expected_count == length addresses)
            then some (count_differs (length addresses) expected_count)
            else if not (bits_eq fingerprint expected_fingerprint)
            then some fingerprint_differs
            else none
      ]
