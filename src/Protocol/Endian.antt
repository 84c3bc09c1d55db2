-- ===== src/Protocol/Endian.antt =====
-- engine/include/hypernet/protocol/Endian.hpp: integers in network byte order. An array is the list
-- of its bytes, a pointer the list of the bytes from it on.
pub mod RoundTrip
use network_engine_portfolio.Prelude.{
  ℕ, ◌+◌, ◌*◌, ◌/◌, ◌%◌, ◌^◌, ◌≤◌, ◌<◌, ◌≡◌, List, [], ◌∷◌, get_or, ap, ◌∙◌, arith, bit_or,
  bit_or-disjoint,
}

-- `static_cast<std::uint8_t>((v >> k) & 0xFF)`
abbrev pub octet : ℕ → ℕ → ℕ
octet v k = v / 2 ^ k % 256

unfoldable pub store_u16_be : ℕ → List ℕ
store_u16_be v = octet v 8 ∷ octet v 0 ∷ []

unfoldable pub store_u32_be : ℕ → List ℕ
store_u32_be v = octet v 24 ∷ octet v 16 ∷ octet v 8 ∷ octet v 0 ∷ []

unfoldable pub store_u64_be : ℕ → List ℕ
store_u64_be v =
    octet v 56
    ∷ octet v 48
    ∷ octet v 40
    ∷ octet v 32
    ∷ octet v 24
    ∷ octet v 16
    ∷ octet v 8
    ∷ octet v 0
    ∷ []

abbrev pub byte : List ℕ → ℕ → ℕ
byte p i = get_or p i 0

infixl 55 ◌<<◌
abbrev pub ◌<<◌ : ℕ → ℕ → ℕ
x << k = x * 2 ^ k

unfoldable pub load_u16_be : List ℕ → ℕ
load_u16_be p = bit_or (byte p 0 << 8) (byte p 1 << 0) % 2 ^ 16

unfoldable pub load_u32_be : List ℕ → ℕ
load_u32_be p =
    bit_or (bit_or (bit_or (byte p 0 << 24) (byte p 1 << 16)) (byte p 2 << 8)) (byte p 3 << 0)

high_u64 : List ℕ → ℕ
high_u64 p =
    bit_or (bit_or (bit_or (byte p 0 << 56) (byte p 1 << 48)) (byte p 2 << 40)) (byte p 3 << 32)

unfoldable pub load_u64_be : List ℕ → ℕ
unfolding high_u64
load_u64_be p =
    bit_or (bit_or (bit_or (bit_or (high_u64 p) (byte p 4 << 24)) (byte p 5 << 16)) (byte p 6 << 8))
      (byte p 7 << 0)

-- A load is the sum of the bytes at their weights.
pub load_u16-sum :
    (a b : ℕ) (rest : List ℕ) → a < 256 → b < 256 → load_u16_be (a ∷ b ∷ rest) ≡ a * 256 + b
unfolding load_u16_be
load_u16-sum a b rest ha hb = omega (arith, bit_or-disjoint 8 a (b << 0) (omega arith))

-- One more byte joins a value that ends where the byte begins.
join : (k x q b : ℕ) → x ≡ q * 2 ^ k → b < 2 ^ k → bit_or x b ≡ x + b
join k x q b e h = ap (λ (t : ℕ). bit_or t b) e ∙ bit_or-disjoint k q b h ∙ omega (arith, e)

pub load_u32-sum :
    (a b c d : ℕ) (rest : List ℕ)
    → a < 256
    → b < 256
    → c < 256
    → d < 256
    → load_u32_be (a ∷ b ∷ c ∷ d ∷ rest) ≡ a * 2 ^ 24 + b * 2 ^ 16 + c * 2 ^ 8 + d
unfolding load_u32_be
load_u32-sum a b c d rest ha hb hc hd =
    rw
      (
        join 24 (a << 24) a (b << 16) (omega arith) (omega arith),
        join 16 (a * 2 ^ 24 + b * 2 ^ 16) (a * 256 + b) (c << 8) (omega arith) (omega arith),
        join 8 (a * 2 ^ 24 + b * 2 ^ 16 + c * 2 ^ 8) (a * 2 ^ 16 + b * 256 + c) (d << 0)
            (omega arith) (omega arith),
      )
      (omega arith)

high_u64-sum :
    (a b c d : ℕ) (rest : List ℕ)
    → a < 256
    → b < 256
    → c < 256
    → d < 256
    → high_u64 (a ∷ b ∷ c ∷ d ∷ rest) ≡ (a * 2 ^ 24 + b * 2 ^ 16 + c * 2 ^ 8 + d) * 2 ^ 32
unfolding high_u64
high_u64-sum a b c d rest ha hb hc hd =
    rw
      (
        join 56 (a << 56) a (b << 48) (omega arith) (omega arith),
        join 48 (a * 2 ^ 56 + b * 2 ^ 48) (a * 256 + b) (c << 40) (omega arith) (omega arith),
        join 40 (a * 2 ^ 56 + b * 2 ^ 48 + c * 2 ^ 40) (a * 2 ^ 16 + b * 256 + c) (d << 32)
            (omega arith) (omega arith),
      )
      (omega arith)

pub load_u64-sum :
    (a b c d e f g h : ℕ) (rest : List ℕ)
    → a < 256
    → b < 256
    → c < 256
    → d < 256
    → e < 256
    → f < 256
    → g < 256
    → h < 256
    → load_u64_be (a ∷ b ∷ c ∷ d ∷ e ∷ f ∷ g ∷ h ∷ rest)
      ≡ (a * 2 ^ 24 + b * 2 ^ 16 + c * 2 ^ 8 + d) * 2 ^ 32
        + (e * 2 ^ 24 + f * 2 ^ 16 + g * 2 ^ 8 + h)
unfolding load_u64_be
load_u64-sum a b c d e f g h rest ha hb hc hd he hf hg hh =
    let top : ℕ = a * 2 ^ 24 + b * 2 ^ 16 + c * 2 ^ 8 + d in
    rw
      (
        high_u64-sum a b c d (e ∷ f ∷ g ∷ h ∷ rest) ha hb hc hd,
        join 32 (top * 2 ^ 32) top (e << 24) (omega arith) (omega arith),
        join 24 (top * 2 ^ 32 + e * 2 ^ 24) (top * 256 + e) (f << 16) (omega arith) (omega arith),
        join 16 (top * 2 ^ 32 + e * 2 ^ 24 + f * 2 ^ 16) (top * 2 ^ 16 + e * 256 + f) (g << 8)
            (omega arith) (omega arith),
        join 8 (top * 2 ^ 32 + e * 2 ^ 24 + f * 2 ^ 16 + g * 2 ^ 8)
            (top * 2 ^ 24 + e * 2 ^ 16 + f * 256 + g) (h << 0) (omega arith) (omega arith),
      )
      (omega arith)
