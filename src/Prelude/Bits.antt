-- ===== src/Prelude/Bits.antt =====
-- `|` of fields that do not overlap is their sum.
use Prim.Native.Nat.{
  ℕ, zero, suc, ◌+◌, ◌*◌, ◌/◌, ◌%◌, ◌^◌, ◌≤◌, ◌<◌, max, bit_or, digits, bit_or-bitwise,
}
use mathlib.Core.Path.{◌≡◌, refl, ap, ◌∙◌}
use native.Mathlib.Nat.{pow-suc}
use native.Mathlib.Omega.{arith}

-- The recursion on binary digits that the native operation stands for, with its fuel first.
abbrev or_digits : ℕ → ℕ → ℕ → ℕ
or_digits fuel a b = digits (λ x. x) max fuel a b

or_digits_enough : (k l a b : ℕ) → a ≤ k → a ≤ l → or_digits k a b ≡ or_digits l a b
or_digits_enough k l zero b p q = first k ∙ symm (first l)
  where
    first : (k : ℕ) → or_digits k zero b ≡ b
    first zero = refl
    first (suc k) = refl

    symm : {x y : ℕ} → x ≡ y → y ≡ x
    symm e = rw e
or_digits_enough zero l (suc a) b p q = absurd (omega arith)
or_digits_enough (suc k) zero (suc a) b p q = absurd (omega arith)
or_digits_enough (suc k) (suc l) (suc a) b p q =
    omega (arith, or_digits_enough k l (suc a / 2) (b / 2) (omega arith) (omega arith))

bit_or-halves : (a b : ℕ) → bit_or a b ≡ 2 * bit_or (a / 2) (b / 2) + max (a % 2) (b % 2)
bit_or-halves zero b = omega (arith, bit_or-bitwise 0 b, bit_or-bitwise 0 (b / 2))
bit_or-halves (suc a) b = omega (
  arith,
  bit_or-bitwise (suc a) b,
  bit_or-bitwise (suc a / 2) (b / 2),
  or_digits_enough a (suc a / 2) (suc a / 2) (b / 2) (omega arith) (omega arith),
)

bit_or-zero_below : (k a : ℕ) → a ≤ k → bit_or a 0 ≡ a
bit_or-zero_below k zero h = refl
bit_or-zero_below zero (suc a) h = absurd (omega arith)
bit_or-zero_below (suc k) (suc a) h =
    omega (arith, bit_or-halves (suc a) 0, bit_or-zero_below k (suc a / 2) (omega arith))

pub bit_or-disjoint :
    (k high low : ℕ) → low < 2 ^ k → bit_or (high * 2 ^ k) low ≡ high * 2 ^ k + low
bit_or-disjoint zero high low h = ground (arith, bit_or-zero_below high high)
bit_or-disjoint (suc k) high low h = omega (
  arith,
  pow-suc 2 k,
  ap (λ (t : ℕ). high * t) (pow-suc 2 k),
  bit_or-halves (high * 2 ^ suc k) low,
  ap (λ (t : ℕ). bit_or t (low / 2)) half,
  bit_or-disjoint k high (low / 2) (omega (arith, pow-suc 2 k)),
)
  where
    half : high * 2 ^ suc k / 2 ≡ high * 2 ^ k
    half = omega (arith, ap (λ (t : ℕ). high * t) (pow-suc 2 k))
