-- ===== src/Nodes/Address.antt =====
-- `parse_multiaddr` and `derive_admin_url_with` of src/chain/mod.rs. The parser of addresses and the
-- text of a socket address are the standard library's and stand as parameters.
use nox_indexer.Prelude.{
  ℕ, ◌+◌, ◌==◌, leb, Bool, true, false, ◌||◌, Option, none, some, List, [], ◌∷◌, ◌++◌,
  if◌then◌else◌,
}
use nox_indexer.Prelude.Text.{Text, text, text_eq, parse_uint}
use nox_indexer.Nodes.Targets.{IpAddr, ip_allowed_with}

abbrev onto_first : ℕ → List Text → List Text
onto_first c [] = (c ∷ []) ∷ []
onto_first c (part ∷ parts) = (c ∷ part) ∷ parts

-- `url.split('/')`
unfoldable pub split_slashes : Text → List Text
split_slashes [] = [] ∷ []
split_slashes (c ∷ s) =
    let parts = split_slashes s in if c == b'/' then [] ∷ parts else onto_first c parts

abbrev pub is_ip_segment : Text → Bool
is_ip_segment s = text_eq s (text "ip4") || text_eq s (text "ip6")

-- `ip.zip(port)`
abbrev pub zip_options : Option Text → Option ℕ → Option (Text × ℕ)
zip_options none port = none
zip_options (some ip) none = none
zip_options (some ip) (some port) = some (ip, port)

-- The loop over the segments: the address and the port found last.
unfoldable pub scan_segments : Option Text → Option ℕ → List Text → Option (Text × ℕ)
unfolding parse_uint
scan_segments ip port [] = zip_options ip port
scan_segments ip port (segment ∷ []) =
    if is_ip_segment segment
    then zip_options none port
    else if text_eq segment (text "tcp")
    then zip_options ip none
    else zip_options ip port
scan_segments ip port (segment ∷ s ∷ rest) = elim (is_ip_segment segment) [
  | true ↦ scan_segments (some s) port rest
  | false ↦ elim (text_eq segment (text "tcp")) [
    | true ↦ scan_segments ip (parse_uint 65_535 s) rest
    | false ↦ scan_segments ip port (s ∷ rest)
  ]
]

unfoldable pub parse_multiaddr : Text → Option (Text × ℕ)
unfolding scan_segments split_slashes
parse_multiaddr url = scan_segments none none (split_slashes url)

-- `p.checked_add(n)` on `u16`
abbrev pub checked_add : ℕ → ℕ → Option ℕ
checked_add p n = if leb (p + n) 65_535 then some (p + n) else none

module _ (parse_ip : Text → Option IpAddr) (show_socket : IpAddr → ℕ → Text) where
  abbrev pub url_of : Option IpAddr → Option ℕ → Bool → Text
  url_of none port allow_private = []
  url_of (some ip) none allow_private = []
  url_of (some ip) (some admin_port) allow_private =
      if ip_allowed_with ip allow_private then text "http://" ++ show_socket ip admin_port else []

  unfoldable pub derive_admin_url_with : Text → Bool → Text
  unfolding parse_multiaddr ip_allowed_with
  derive_admin_url_with multiaddr allow_private = elim (parse_multiaddr multiaddr) [
    | none ↦ []
    | some (ip_text, tcp_port) ↦ url_of (parse_ip ip_text) (checked_add tcp_port 1) allow_private
  ]
