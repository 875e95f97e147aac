-- ===== src/Profile/Tests.antt =====
-- The return data of a member in the current layout, with three statuses.
use nox_indexer.Prelude.{ℕ, zero, suc, ◌≡◌, refl, true, false, some, List, [], ◌∷◌, ◌++◌}
use nox_indexer.Prelude.Text.{Text, text}
use nox_indexer.Prelude.Results.{Result, ok}
use nox_indexer.Profile.Decode.{
  current9, ParamType, Token, RelayerProfile, is_member, big_endian, detect_layout,
  decode_relayer_profile,
}
use nox_indexer.Profile.Decoded.{tokens_of, decoded, decode_relayer_profile-tokens_of}

abbrev zeros : ℕ → List ℕ
zeros zero = []
zeros (suc n) = 0 ∷ zeros n

-- The offset of the first string is 288.
abbrev bytes : List ℕ
bytes = zeros 62 ++ (1 ∷ 32 ∷ [])

abbrev profile : RelayerProfile
profile = record {
  sphinx_key = zeros 32;
  url = text "/ip4/8.8.8.8/tcp/9000";
  ingress_url = [];
  metadata_url = [];
  staked_amount = 5;
  unstake_time = 0;
  is_registered = true;
  status = some 1;
  frozen = false;
  layout = current9;
}

abbrev abi_decode : List ParamType → List ℕ → Result (List Token)
abi_decode types data' = ok (tokens_of profile current9 1)

abbrev show_token : Token → Text
show_token token = []

abbrev show_number : ℕ → Text
show_number n = []

detects : detect_layout abi_decode show_token show_number show_number bytes ≡ ok current9
unfolding detect_layout big_endian
detects = refl

is_a_member : is_member profile ≡ true
unfolding is_member
is_a_member = refl

decode_relayer_profile-tokens_of_example :
    decode_relayer_profile abi_decode show_token show_number show_number bytes
    ≡ decoded abi_decode show_token show_number show_number profile current9 1
decode_relayer_profile-tokens_of_example =
    decode_relayer_profile-tokens_of abi_decode show_token show_number show_number bytes profile
      current9 1 refl detects refl
