-- ===== src/Profile/Decode.antt =====
-- `decode_relayer_profile` of src/chain/profile.rs. The ABI decoder and the texts that quote its tokens
-- are not under the repository and stand as parameters. A 256-bit number is a natural number; `none`
-- is a panic.
use nox_indexer.Prelude.{
  ℕ, zero, suc, ◌+◌, ◌*◌, ltb, leb, ◌==◌, Bool, false, ◌&&◌, not, Option, none, some, List, [], ◌∷◌,
  ◌++◌, length, if◌then◌else◌,
}
use nox_indexer.Prelude.Words.{u64_max}
use nox_indexer.Prelude.Text.{Text, text}
use nox_indexer.Prelude.Results.{Result, ok, err, ◌>>=◌}

pub data ProfileLayout : Type 0 where
  legacy7 : ProfileLayout
  current9 : ProfileLayout

pub data ParamType : Type 0 where
  fixed_bytes_type : ℕ → ParamType
  string_type : ParamType
  uint_type : ℕ → ParamType
  bool_type : ParamType

pub data Token : Type 0 where
  fixed_bytes : List ℕ → Token
  string : Text → Token
  uint : ℕ → Token
  boolean : Bool → Token
  other_token : ℕ → Token

pub record RelayerProfile : Type 0 where
  pub sphinx_key : List ℕ
  pub url : Text
  pub ingress_url : Text
  pub metadata_url : Text
  pub staked_amount : ℕ
  pub unstake_time : ℕ
  pub is_registered : Bool
  pub status : Option ℕ
  pub frozen : Bool
  pub layout : ProfileLayout

-- `RelayerProfile::is_member`; `STATUS_NONE` is 0.
unfoldable pub is_member : RelayerProfile → Bool
is_member profile =
    profile.is_registered && not (elim profile.status [ none ↦ false | some s ↦ s == 0 ])

abbrev pub common_types : List ParamType
common_types =
    fixed_bytes_type 32
    ∷ string_type
    ∷ string_type
    ∷ string_type
    ∷ uint_type 256
    ∷ uint_type 256
    ∷ bool_type
    ∷ []

unfoldable pub param_types : ProfileLayout → List ParamType
param_types legacy7 = common_types
param_types current9 = common_types ++ (uint_type 8 ∷ bool_type ∷ [])

-- `U256::from_big_endian`
unfoldable pub big_endian : ℕ → List ℕ → ℕ
big_endian acc [] = acc
big_endian acc (b ∷ bytes) = big_endian (acc * 256 + b) bytes

abbrev pub take_bytes : ℕ → List ℕ → List ℕ
take_bytes n [] = []
take_bytes zero (b ∷ bytes) = []
take_bytes (suc n) (b ∷ bytes) = b ∷ take_bytes n bytes

abbrev pub drop_bytes : ℕ → List ℕ → List ℕ
drop_bytes zero bytes = bytes
drop_bytes (suc n) [] = []
drop_bytes (suc n) (b ∷ bytes) = drop_bytes n bytes

module _ (abi_decode : List ParamType → List ℕ → Result (List Token)) (show_token : Token → Text)
    (show_hex show_number : ℕ → Text) where
  abbrev layout_at : ℕ → Result ProfileLayout
  layout_at offset =
      if offset == 7 * 32
      then ok legacy7
      else if offset == 9 * 32
      then ok current9
      else err (
          text "relayers() returned an unknown layout (first string offset "
          ++ show_hex offset
          ++ text ")")

  unfoldable pub detect_layout : List ℕ → Result ProfileLayout
  unfolding big_endian
  detect_layout bytes =
      if ltb (length bytes) 64
      then err (
          text "relayers() returned "
          ++ show_number (length bytes)
          ++ text " bytes, too short for a profile")
      else layout_at (big_endian 0 (take_bytes 32 (drop_bytes 32 bytes)))

  abbrev unexpected {ℓ} : {A : Type ℓ} → Text → Token → Result A
  unexpected name token =
      err (text "relayers() " ++ name ++ text " has unexpected token " ++ show_token token)

  -- The next field, and those after it.
  abbrev pub next : Text → List Token → Result (Token × List Token)
  next name [] = err (text "relayers() is missing field " ++ name)
  next name (token ∷ rest) = ok (token, rest)

  abbrev pub key_of : Token → Result (List ℕ)
  key_of (fixed_bytes bytes) =
      if length bytes == 32 then ok bytes else unexpected (text "sphinxKey") (fixed_bytes bytes)
  key_of (string t) = unexpected (text "sphinxKey") (string t)
  key_of (uint n) = unexpected (text "sphinxKey") (uint n)
  key_of (boolean b) = unexpected (text "sphinxKey") (boolean b)
  key_of (other_token n) = unexpected (text "sphinxKey") (other_token n)

  abbrev pub string_of : Text → Token → Result Text
  string_of name (string t) = ok t
  string_of name (fixed_bytes bytes) = unexpected name (fixed_bytes bytes)
  string_of name (uint n) = unexpected name (uint n)
  string_of name (boolean b) = unexpected name (boolean b)
  string_of name (other_token n) = unexpected name (other_token n)

  abbrev pub uint_of : Text → Token → Result ℕ
  uint_of name (uint n) = ok n
  uint_of name (fixed_bytes bytes) = unexpected name (fixed_bytes bytes)
  uint_of name (string t) = unexpected name (string t)
  uint_of name (boolean b) = unexpected name (boolean b)
  uint_of name (other_token n) = unexpected name (other_token n)

  abbrev pub boolean_of : Text → Token → Result Bool
  boolean_of name (boolean b) = ok b
  boolean_of name (fixed_bytes bytes) = unexpected name (fixed_bytes bytes)
  boolean_of name (string t) = unexpected name (string t)
  boolean_of name (uint n) = unexpected name (uint n)
  boolean_of name (other_token n) = unexpected name (other_token n)

  -- The fields that both layouts have, and the tokens after them.
  unfoldable pub common_fields : ProfileLayout → List Token → Result (RelayerProfile × List Token)
  common_fields layout tokens = do
    (key_token, t₁) ← next (text "sphinxKey") tokens
    key ← key_of key_token
    (url_token, t₂) ← next (text "url") t₁
    url ← string_of (text "url") url_token
    (ingress_token, t₃) ← next (text "ingressUrl") t₂
    ingress_url ← string_of (text "ingressUrl") ingress_token
    (metadata_token, t₄) ← next (text "metadataUrl") t₃
    metadata_url ← string_of (text "metadataUrl") metadata_token
    (staked_token, t₅) ← next (text "stakedAmount") t₄
    staked_amount ← uint_of (text "stakedAmount") staked_token
    (unstake_token, t₆) ← next (text "unstakeTime") t₅
    unstake_time ← uint_of (text "unstakeTime") unstake_token
    (registered_token, t₇) ← next (text "isRegistered") t₆
    is_registered ← boolean_of (text "isRegistered") registered_token
    ok (
      record {
        sphinx_key = key;
        url = url;
        ingress_url = ingress_url;
        metadata_url = metadata_url;
        staked_amount = staked_amount;
        unstake_time = unstake_time;
        is_registered = is_registered;
        status = none;
        frozen = false;
        layout = layout;
      },
      t₇,
    )

  -- `status.as_u64()`, which panics beyond 64 bits.
  unfoldable pub as_u64 : ℕ → Option ℕ
  as_u64 n = if leb n u64_max then some n else none

  -- The status within a byte, then whether the relayer is frozen.
  abbrev pub after_status : RelayerProfile → ℕ → List Token → Result RelayerProfile
  after_status profile status rest =
      if leb status 255
      then (do
        (frozen_token, t) ← next (text "frozen") rest
        frozen ← boolean_of (text "frozen") frozen_token
        ok (record profile { status = some status; frozen = frozen }))
      else err (text "relayers() status " ++ show_number status ++ text " is out of range")

  abbrev pub status_field : List Token → Result (ℕ × List Token)
  status_field tokens = do
    (status_token, rest) ← next (text "status") tokens
    status ← uint_of (text "status") status_token
    ok (status, rest)

  abbrev pub with_u64 : RelayerProfile → List Token → Option ℕ → Option (Result RelayerProfile)
  with_u64 profile rest none = none
  with_u64 profile rest (some n) = some (after_status profile n rest)

  unfoldable pub with_status_field :
      RelayerProfile → Result (ℕ × List Token) → Option (Result RelayerProfile)
  unfolding as_u64
  with_status_field profile (err error) = some (err error)
  with_status_field profile (ok (status, rest)) = with_u64 profile rest (as_u64 status)

  unfoldable pub last_fields :
      ProfileLayout → Result (RelayerProfile × List Token) → Option (Result RelayerProfile)
  unfolding with_status_field
  last_fields layout (err error) = some (err error)
  last_fields legacy7 (ok (profile, rest)) = some (ok profile)
  last_fields current9 (ok (profile, rest)) = with_status_field profile (status_field rest)

  abbrev show_layout : ProfileLayout → Text
  show_layout legacy7 = text "Legacy7"
  show_layout current9 = text "Current9"

  unfoldable pub decode_tokens :
      ProfileLayout → Result (List Token) → Option (Result RelayerProfile)
  unfolding common_fields last_fields
  decode_tokens layout (err error) =
      some (err (text "relayers() " ++ show_layout layout ++ text " decode failed: " ++ error))
  decode_tokens layout (ok tokens) = last_fields layout (common_fields layout tokens)

  abbrev pub decode_with : List ℕ → Result ProfileLayout → Option (Result RelayerProfile)
  decode_with bytes (err error) = some (err error)
  decode_with bytes (ok layout) = decode_tokens layout (abi_decode (param_types layout) bytes)

  unfoldable pub decode_relayer_profile : List ℕ → Option (Result RelayerProfile)
  unfolding detect_layout param_types decode_tokens
  decode_relayer_profile bytes = decode_with bytes (detect_layout bytes)
