-- ===== src/Prelude/Words.antt =====
-- Machine words as native numbers: 64-bit sums and differences wrap.
use Prim.Native.Nat.{ℕ, ◌+◌, ◌-◌, ◌%◌, ◌^◌, ◌<◌}
use mathlib.Core.Path.{◌≡◌}
use native.Mathlib.Omega.{arith}
use native.Mathlib.Decide.{dec_lt}
use native.Mathlib.Nat.{mod-eq_of_lt, mod-eq-sub-mod}
use network_engine_portfolio.Prelude.Logic.{ltb, if◌then◌else◌}

-- `std::size_t` and `std::uint64_t`
abbrev pub add64 : ℕ → ℕ → ℕ
add64 a b = (a + b) % 2 ^ 64

abbrev pub sub64 : ℕ → ℕ → ℕ
sub64 a b = (a + 2 ^ 64 - b) % 2 ^ 64

-- An index that has gone at most once round a ring of `cap` places.
abbrev pub wrap : ℕ → ℕ → ℕ
wrap cap x = if ltb x cap then x else x - cap

pub mod-wrap : (c x : ℕ) → x < c + c → x % c ≡ wrap c x
mod-wrap c x h = elim (dec_lt x c) [
  | yes p ↦ ground (arith, mod-eq_of_lt p)
  | no p ↦ ground (
    arith,
    mod-eq-sub-mod {n = x} {m = c} (omega arith),
    mod-eq_of_lt {n = x - c} {m = c} (omega arith),
  )
]
