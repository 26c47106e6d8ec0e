-- ===== src/Ssrf/Blocks.antt =====
-- The private IPv4 addresses of src/services/upload.rs as address blocks, and the ways in which an
-- IPv4 address reaches the test.
use almond.Prelude.{
  ℕ, ◌+◌, ◌*◌, ◌/◌, ◌%◌, ◌<◌, ◌≡◌, Bool, ◌&&◌, ◌||◌, sym, List, [], ◌∷◌, leb, ◌==◌, any, arith,
}
use almond.Ssrf.{v4, v6, is_private_ip, is_private_v4, within}

-- An address as a number.
abbrev pub address : ℕ → ℕ → ℕ → ℕ → ℕ
address a b c d = ((a * 256 + b) * 256 + c) * 256 + d

-- A block by its first and its last address.
abbrev pub Block : Type 0
Block = ℕ × ℕ

abbrev pub slash_8 : ℕ → Block
slash_8 a = (address a 0 0 0, address a 255 255 255)

abbrev pub slash_16 : ℕ → ℕ → Block
slash_16 a b = (address a b 0 0, address a b 255 255)

abbrev pub slash_24 : ℕ → ℕ → ℕ → Block
slash_24 a b c = (address a b c 0, address a b c 255)

-- "This" network, private use, loopback, multicast and reserved, shared address space, link-local,
-- private use, protocol assignments, documentation, private use, benchmarking, and documentation twice.
abbrev pub special_blocks : List Block
special_blocks =
    slash_8 0
    ∷ slash_8 10
    ∷ slash_8 127
    ∷ (address 224 0 0 0, address 255 255 255 255)
    ∷ (address 100 64 0 0, address 100 127 255 255)
    ∷ slash_16 169 254
    ∷ (address 172 16 0 0, address 172 31 255 255)
    ∷ slash_24 192 0 0
    ∷ slash_24 192 0 2
    ∷ slash_16 192 168
    ∷ (address 198 18 0 0, address 198 19 255 255)
    ∷ slash_24 198 51 100
    ∷ slash_24 203 0 113
    ∷ []

-- The code tests two octets where the blocks 192.0.0.0/24, 192.0.2.0/24 and 198.51.100.0/24 have
-- three, and so refuses all of their networks of 16 bits.
abbrev pub wider_blocks : List Block
wider_blocks = slash_16 192 0 ∷ slash_16 198 51 ∷ []

abbrev pub in_block : ℕ → Block → Bool
in_block n (first, last) = within first last n

module _ (a b c d : ℕ) (ha : a < 256) (hb : b < 256) (hc : c < 256) (hd : d < 256) where
  in_slash_8 : (k : ℕ) → in_block (address a b c d) (slash_8 k) ≡ (a == k)
  in_slash_8 k = ground arith

  in_slash_16 : (k l : ℕ) → l < 256 → in_block (address a b c d) (slash_16 k l) ≡ (a == k && b == l)
  in_slash_16 k l h = ground arith

  -- A run of second octets.
  in_run :
      (k l m : ℕ)
      → m < 256
      → within (address k l 0 0) (address k m 255 255) (address a b c d) ≡ (a == k && within l m b)
  in_run k l m h = ground arith

  in_high : within (address 224 0 0 0) (address 255 255 255 255) (address a b c d) ≡ leb 224 a
  in_high = ground arith

  in_slash_24 :
      (k l m : ℕ)
      → l < 256
      → m < 256
      → in_block (address a b c d) (slash_24 k l m) ≡ (a == k && b == l && c == m)
  in_slash_24 k l m h h' = ground arith

  any_special :
      (any (in_block (address a b c d)) special_blocks
        || any (in_block (address a b c d)) wider_blocks)
      ≡ is_private_v4 a b c
  unfolding is_private_v4
  any_special =
      rw
        (
          in_slash_8 0,
          in_slash_8 10,
          in_slash_8 127,
          in_high,
          in_run 100 64 127 (omega arith),
          in_slash_16 169 254 (omega arith),
          in_run 172 16 31 (omega arith),
          in_slash_16 192 0 (omega arith),
          in_slash_24 192 0 0 (omega arith) (omega arith),
          in_slash_24 192 0 2 (omega arith) (omega arith),
          in_slash_24 198 51 100 (omega arith) (omega arith),
          in_slash_16 192 168 (omega arith),
          in_run 198 18 19 (omega arith),
          in_slash_16 198 51 (omega arith),
          in_slash_24 203 0 113 (omega arith) (omega arith),
        )
        (ground arith)

  -- An IPv4 address is private by the code's tests on its octets exactly where it lies in one of the
  -- listed special-purpose blocks or in 192.0.0.0/16 or 198.51.0.0/16, which the code refuses as a
  -- whole; so is, as an IPv6 address, its mapped form `::ffff:a.b.c.d`.
  pub is_private_ip_blocks :
      (is_private_ip (v4 a b c d) ≡ (
        any (in_block (address a b c d)) special_blocks
        || any (in_block (address a b c d)) wider_blocks))
      × (is_private_ip (v6 0 0 0 0 0 0xffff (a * 256 + b) (c * 256 + d)) ≡ (
          any (in_block (address a b c d)) special_blocks
          || any (in_block (address a b c d)) wider_blocks))
  unfolding is_private_ip
  is_private_ip_blocks =
      let high : (a * 256 + b) / 256 ≡ a = omega arith in
      let low : (a * 256 + b) % 256 ≡ b = omega arith in
      let next : (c * 256 + d) / 256 ≡ c = omega arith in
      (sym any_special, rw (high, low, next) (sym any_special))
