-- ===== src/Rpc/Urls.antt =====
-- `parse_rpc_urls` of src/chain/rpc.rs. White space is that of ASCII.
use nox_indexer.Prelude.{ℕ, ◌==◌, Bool, ◌||◌, List, [], ◌∷◌, map, if◌then◌else◌, leb, ◌&&◌}
use nox_indexer.Prelude.Text.{Text, is_empty}

abbrev pub is_space : ℕ → Bool
is_space c = c == 32 || (leb 9 c && leb c 13)

unfoldable pub trim_start : Text → Text
trim_start [] = []
trim_start (c ∷ s) = let rest = trim_start s in if is_space c then rest else c ∷ s

unfoldable pub reverse_onto : Text → Text → Text
reverse_onto [] out = out
reverse_onto (c ∷ s) out = reverse_onto s (c ∷ out)

-- `s.trim()`
unfoldable pub trim : Text → Text
unfolding trim_start reverse_onto
trim s = reverse_onto (trim_start (reverse_onto (trim_start s) [])) []

abbrev onto_first : ℕ → List Text → List Text
onto_first c [] = (c ∷ []) ∷ []
onto_first c (part ∷ parts) = (c ∷ part) ∷ parts

-- `s.split(',')`
unfoldable pub split_commas : Text → List Text
split_commas [] = [] ∷ []
split_commas (c ∷ s) =
    let parts = split_commas s in if c == b',' then [] ∷ parts else onto_first c parts

-- `filter(|url| !url.is_empty())`
unfoldable pub non_empty : List Text → List Text
non_empty [] = []
non_empty (url ∷ urls) = let rest = non_empty urls in if is_empty url then rest else url ∷ rest

unfoldable pub parse_rpc_urls : Text → List Text
unfolding trim split_commas non_empty
parse_rpc_urls raw = non_empty (map trim (split_commas raw))
