-- ===== src/Nodes/Ranges.antt =====
-- The IPv4 addresses that are never polled, as blocks of the special-purpose address registry.
use nox_indexer.Prelude.{
  ℕ, ◌+◌, ◌*◌, ◌/◌, ◌<◌, ◌==◌, ◌≡◌, Bool, true, false, ap, ◌&&◌, ◌||◌, leb, not, List, [], ◌∷◌,
  arith,
}
use nox_indexer.Nodes.Targets.{is_public_v4}

-- A block of `size` addresses from `a.b.c.0` on.
pub record Block : Type 0 where
  pub first : ℕ
  pub size : ℕ

abbrev pub number : ℕ → ℕ → ℕ → ℕ → ℕ
number a b c d = ((a * 256 + b) * 256 + c) * 256 + d

abbrev block : ℕ → ℕ → ℕ → ℕ → Block
block a b c n = record { first = number a b c 0; size = n }

-- 127/8, 10/8, 172.16/12, 192.168/16, 169.254/16, 192.0.2/24, 198.51.100/24, 203.0.113/24, 224/4,
-- 0/8, 100.64/10, 192.0.0/24, 198.18/15 and 240/4.
abbrev pub special : List Block
special =
    block 127 0 0 16_777_216
    ∷ block 10 0 0 16_777_216
    ∷ block 172 16 0 1_048_576
    ∷ block 192 168 0 65_536
    ∷ block 169 254 0 65_536
    ∷ block 192 0 2 256
    ∷ block 198 51 100 256
    ∷ block 203 0 113 256
    ∷ block 224 0 0 268_435_456
    ∷ block 0 0 0 16_777_216
    ∷ block 100 64 0 4_194_304
    ∷ block 192 0 0 256
    ∷ block 198 18 0 131_072
    ∷ block 240 0 0 268_435_456
    ∷ []

abbrev pub in_any : List Block → ℕ → Bool
in_any [] n = false
in_any (x ∷ xs) n = n / x.size == x.first / x.size || in_any xs n

absorbed :
    (u x p q r l e d g f m z n i s h : Bool)
    → (u ≡ true → z ≡ true)
    → (e ≡ true → h ≡ true)
    → (u || x || (p || q || r) || l || e || (d || g || f) || m || z || n || i || s || h) ≡ (
        x
        || (p
            || (q
                || (r
                    || (l
                        || (d || (g || (f || (m || (z || (n || (i || (s || (h || false))))))))))))))
absorbed u true p q r l e d g f m z n i s h hu he = ground arith
absorbed u false p q r l e d g f m z n i s h hu he = ground arith

module _ (a b c d : ℕ) (ha : a < 256) (hb : b < 256) (hc : c < 256) (hd : d < 256) where
  in_8 : (k : ℕ) → (number a b c d / 16_777_216 == k) ≡ (a == k)
  in_8 k = ground arith

  in_10 : (number a b c d / 4_194_304 == 401) ≡ (a == 100 && b / 64 * 64 == 64)
  in_10 = ground arith

  in_12 : (number a b c d / 1_048_576 == 2_753) ≡ (a == 172 && (leb 16 b && leb b 31))
  in_12 = ground arith

  in_15 : (number a b c d / 131_072 == 25_353) ≡ (a == 198 && b / 2 * 2 == 18)
  in_15 = ground arith

  in_16 : (k l : ℕ) → l < 256 → (number a b c d / 65_536 == k * 256 + l) ≡ (a == k && b == l)
  in_16 k l h = ground arith

  in_24 :
      (k l m : ℕ)
      → l < 256
      → m < 256
      → (number a b c d / 256 == (k * 256 + l) * 256 + m) ≡ (a == k && (b == l && c == m))
  in_24 k l m h g = ground arith

  in_4 : (number a b c d / 268_435_456 == 14) ≡ (leb 224 a && leb a 239)
  in_4 = ground arith

  in_top : (number a b c d / 268_435_456 == 15) ≡ leb 240 a
  in_top = ground arith

  -- An IPv4 address with octets is public exactly when it lies in none of the special-purpose
  -- blocks.
  pub is_public_v4-eq :
      is_public_v4 (record { a = a; b = b; c = c; d = d }) ≡ not (in_any special (number a b c d))
  unfolding is_public_v4
  is_public_v4-eq =
      rw
        (
          in_8 0,
          in_8 10,
          in_8 127,
          in_10,
          in_12,
          in_15,
          in_16 169 254 (omega arith),
          in_16 192 168 (omega arith),
          in_24 192 0 0 (omega arith) (omega arith),
          in_24 192 0 2 (omega arith) (omega arith),
          in_24 198 51 100 (omega arith) (omega arith),
          in_24 203 0 113 (omega arith) (omega arith),
          in_4,
          in_top,
        )
        (ap not (
          absorbed (a == 0 && (b == 0 && (c == 0 && d == 0))) (a == 127) (a == 10)
            (a == 172 && (leb 16 b && leb b 31)) (a == 192 && b == 168) (a == 169 && b == 254)
            (a == 255 && (b == 255 && (c == 255 && d == 255))) (a == 192 && (b == 0 && c == 2))
            (a == 198 && (b == 51 && c == 100)) (a == 203 && (b == 0 && c == 113))
            (leb 224 a && leb a 239) (a == 0) (a == 100 && b / 64 * 64 == 64)
            (a == 192 && (b == 0 && c == 0)) (a == 198 && b / 2 * 2 == 18) (leb 240 a)
            (λ h. ground arith) (λ h. ground arith)))
