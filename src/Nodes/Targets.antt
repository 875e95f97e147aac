-- ===== src/Nodes/Targets.antt =====
-- src/node/targets.rs: the addresses that the indexer may poll. An octet is below 256 and a segment
-- below 65536; a mask that keeps the top bits of a number is written as a multiple of their unit. The
-- URL and address parsers are not under the repository.
use nox_indexer.Prelude.{
  ℕ, ◌*◌, ◌/◌, ◌%◌, ◌==◌, leb, Bool, true, false, ◌&&◌, ◌||◌, not, Option, none, some, [], ◌∷◌,
  if◌then◌else◌,
}
use nox_indexer.Prelude.Text.{Text, text, text_eq}

-- `Ipv4Addr`, by its octets.
pub record Ipv4Addr : Type 0 where
  pub a : ℕ
  pub b : ℕ
  pub c : ℕ
  pub d : ℕ

-- `Ipv6Addr`, by its eight segments.
pub record Ipv6Addr : Type 0 where
  pub s0 : ℕ
  pub s1 : ℕ
  pub s2 : ℕ
  pub s3 : ℕ
  pub s4 : ℕ
  pub s5 : ℕ
  pub s6 : ℕ
  pub s7 : ℕ

pub data IpAddr : Type 0 where
  v4 : Ipv4Addr → IpAddr
  v6 : Ipv6Addr → IpAddr

-- `x & mask` for the mask of all bits from `unit`, a power of two, up.
abbrev pub top_bits : ℕ → ℕ → ℕ
top_bits unit x = x / unit * unit

-- The tests of the standard library.
abbrev pub is_private : Ipv4Addr → Bool
is_private ip =
    ip.a == 10 || (ip.a == 172 && (leb 16 ip.b && leb ip.b 31)) || (ip.a == 192 && ip.b == 168)

abbrev pub is_documentation : Ipv4Addr → Bool
is_documentation ip =
    (ip.a == 192 && (ip.b == 0 && ip.c == 2))
    || (ip.a == 198 && (ip.b == 51 && ip.c == 100))
    || (ip.a == 203 && (ip.b == 0 && ip.c == 113))

abbrev pub is_unspecified : Ipv4Addr → Bool
is_unspecified ip = ip.a == 0 && (ip.b == 0 && (ip.c == 0 && ip.d == 0))

abbrev pub is_broadcast : Ipv4Addr → Bool
is_broadcast ip = ip.a == 255 && (ip.b == 255 && (ip.c == 255 && ip.d == 255))

unfoldable pub is_public_v4 : Ipv4Addr → Bool
is_public_v4 ip = not (
    is_unspecified ip
    || ip.a == 127
    || is_private ip
    || (ip.a == 169 && ip.b == 254)
    || is_broadcast ip
    || is_documentation ip
    || (leb 224 ip.a && leb ip.a 239)
    || ip.a == 0
    || (ip.a == 100 && top_bits 64 ip.b == 64)
    || (ip.a == 192 && (ip.b == 0 && ip.c == 0))
    || (ip.a == 198 && top_bits 2 ip.b == 18)
    || leb 240 ip.a)

-- `Ipv6Addr::to_ipv4_mapped`: `::ffff:a.b.c.d`
unfoldable pub to_ipv4_mapped : Ipv6Addr → Option Ipv4Addr
to_ipv4_mapped ip =
    if ip.s0 == 0 && (ip.s1 == 0 && (ip.s2 == 0 && (ip.s3 == 0 && (ip.s4 == 0 && ip.s5 == 65535))))
    then some (record { a = ip.s6 / 256; b = ip.s6 % 256; c = ip.s7 / 256; d = ip.s7 % 256 })
    else none

unfoldable pub is_public_v6 : Ipv6Addr → Bool
unfolding to_ipv4_mapped is_public_v4
is_public_v6 ip = elim (to_ipv4_mapped ip) [
  | some mapped ↦ is_public_v4 mapped
  | none ↦
      top_bits 8192 ip.s0 == 8192
      && not (ip.s0 == 8193 && ip.s1 == 3512)
      && not (ip.s0 == 8193 && ip.s1 == 0)
      && not (ip.s0 == 8194)
]

unfoldable pub is_public_ip : IpAddr → Bool
unfolding is_public_v4 is_public_v6
is_public_ip (v4 ip) = is_public_v4 ip
is_public_ip (v6 ip) = is_public_v6 ip

unfoldable pub ip_allowed_with : IpAddr → Bool → Bool
unfolding is_public_ip
ip_allowed_with ip allow_private = allow_private || is_public_ip ip

-- A parsed URL: its scheme, and its host if there is one.
pub record Url : Type 0 where
  pub scheme : Text
  pub host_str : Option Text

unfoldable pub trim_start_char : ℕ → Text → Text
trim_start_char c [] = []
trim_start_char c (x ∷ s) = let rest = trim_start_char c s in if x == c then rest else x ∷ s

abbrev drop_last : ℕ → ℕ → Text → Text
drop_last c x [] = if x == c then [] else x ∷ []
drop_last c x (y ∷ s) = x ∷ y ∷ s

unfoldable pub trim_end_char : ℕ → Text → Text
trim_end_char c [] = []
trim_end_char c (x ∷ s) = drop_last c x (trim_end_char c s)

module _ (parse_url : Text → Option Url) (parse_ip : Text → Option IpAddr) where
  unfoldable pub host_allowed : Text → Bool → Bool
  unfolding trim_start_char trim_end_char is_public_ip
  host_allowed host true = true
  host_allowed host false = elim (parse_ip (trim_end_char b']' (trim_start_char b'[' host))) [
    | none ↦ false
    | some ip ↦ is_public_ip ip
  ]

  unfoldable pub url_allowed_with : Text → Bool → Bool
  unfolding host_allowed
  url_allowed_with url allow_private = elim (parse_url url) [
    | none ↦ false
    | some parsed ↦
        if text_eq parsed.scheme (text "http") || text_eq parsed.scheme (text "https")
        then elim parsed.host_str [ none ↦ false | some host ↦ host_allowed host allow_private ]
        else false
  ]
