-- ===== src/Profile/Decoded.antt =====
-- Decoding recovers the profile whose tokens the return data holds.
use nox_indexer.Prelude.{
  ℕ, ◌≡◌, ==_iff, refl, leb, Bool, true, false, Option, none, some, List, [], ◌∷◌, ◌++◌, length,
  if◌then◌else◌, arith,
}
use nox_indexer.Prelude.Words.{u64_max}
use nox_indexer.Prelude.Text.{Text, text}
use nox_indexer.Prelude.Results.{Result, ok, err}
use nox_indexer.Profile.Decode.{
  ProfileLayout, legacy7, current9, ParamType, Token, fixed_bytes, string, uint, boolean,
  RelayerProfile, param_types, detect_layout, common_fields, last_fields, decode_tokens,
  decode_relayer_profile, as_u64, with_status_field,
}

-- The tokens of a profile in a layout, with a status field of any size.
abbrev pub common_tokens : RelayerProfile → List Token
common_tokens p =
    fixed_bytes p.sphinx_key
    ∷ string p.url
    ∷ string p.ingress_url
    ∷ string p.metadata_url
    ∷ uint p.staked_amount
    ∷ uint p.unstake_time
    ∷ boolean p.is_registered
    ∷ []

abbrev pub tokens_of : RelayerProfile → ProfileLayout → ℕ → List Token
tokens_of p legacy7 status = common_tokens p
tokens_of p current9 status = common_tokens p ++ (uint status ∷ boolean p.frozen ∷ [])

module _ (abi_decode : List ParamType → List ℕ → Result (List Token)) (show_token : Token → Text)
    (show_hex show_number : ℕ → Text) where
  -- What decoding makes of the tokens of a profile: in the legacy layout the profile, without a status
  -- and not frozen; in the current one the profile with its status if that is a byte, an error if it
  -- is not, and a panic if it does not fit 64 bits.
  abbrev pub decoded : RelayerProfile → ProfileLayout → ℕ → Option (Result RelayerProfile)
  decoded p legacy7 status =
      some (ok (record p { status = none; frozen = false; layout = legacy7 }))
  decoded p current9 status =
      if leb status 255
      then some (ok (record p { status = some status; layout = current9 }))
      else if leb status u64_max
      then some (err (text "relayers() status " ++ show_number status ++ text " is out of range"))
      else none

  fits :
      (n : ℕ) → leb n u64_max ≡ true → as_u64 abi_decode show_token show_hex show_number n ≡ some n
  unfolding as_u64
  fits n e = rw e refl

  too_large :
      (n : ℕ) → leb n u64_max ≡ false → as_u64 abi_decode show_token show_hex show_number n ≡ none
  unfolding as_u64
  too_large n e = rw e refl

  status_cases :
      (p : RelayerProfile) (status : ℕ) (a b : Bool)
      → leb status u64_max ≡ a
      → leb status 255 ≡ b
      → with_status_field abi_decode show_token show_hex show_number
          (record p { status = none; frozen = false; layout = current9 })
          (ok (status, boolean p.frozen ∷ []))
        ≡ decoded p current9 status
  unfolding with_status_field
  status_cases p status true true e f = rw (fits status e, e, f) refl
  status_cases p status true false e f = rw (fits status e, e, f) refl
  status_cases p status false true e f = absurd (ground arith)
  status_cases p status false false e f = rw (too_large status e, e, f) refl

  decode_tokens-tokens_of :
      (p : RelayerProfile) (layout : ProfileLayout) (status : ℕ)
      → length p.sphinx_key ≡ 32
      → decode_tokens abi_decode show_token show_hex show_number layout
          (ok (tokens_of p layout status))
        ≡ decoded p layout status
  unfolding decode_tokens common_fields last_fields
  decode_tokens-tokens_of p legacy7 status k = rw ((==_iff (length p.sphinx_key) 32).1 k) refl
  decode_tokens-tokens_of p current9 status k =
      rw ((==_iff (length p.sphinx_key) 32).1 k)
        (status_cases p status (leb status u64_max) (leb status 255) refl refl)

  -- If the return data has a known layout and the ABI decoder reads the tokens of a profile from it,
  -- with a key of 32 bytes, decoding gives that profile in the legacy layout without status; in the
  -- current one it gives it with a status up to 255, refuses a larger one and panics beyond 64 bits.
  pub decode_relayer_profile-tokens_of :
      (bytes : List ℕ) (p : RelayerProfile) (layout : ProfileLayout) (status : ℕ)
      → length p.sphinx_key ≡ 32
      → detect_layout abi_decode show_token show_hex show_number bytes ≡ ok layout
      → abi_decode (param_types layout) bytes ≡ ok (tokens_of p layout status)
      → decode_relayer_profile abi_decode show_token show_hex show_number bytes
        ≡ decoded p layout status
  unfolding decode_relayer_profile
  decode_relayer_profile-tokens_of bytes p layout status k l a =
      rw (l, decode_relayer_profile, a) (decode_tokens-tokens_of p layout status k)
