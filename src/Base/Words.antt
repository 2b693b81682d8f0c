-- ===== src/Base/Words.antt =====
-- Machine words: `uint32_t` and `uint16_t` arithmetic with its wrap-around written out.
use Prim.Native.Nat.{ℕ, zero, suc, min, max, ◌*◌, ◌/◌, ◌+◌, ◌-◌, ◌%◌, ◌^◌, ◌<◌, ◌≤◌}
use mathlib.Core.Path.{◌≡◌, ◌∙◌, refl}
use mathlib.Core.Logic.{inl, inr}
use native.Mathlib.Omega.{arith}
use native.Mathlib.Nat.{mod-eq_of_lt, mod-eq-sub-mod}
use mmt_probe.Base.Tests.{ltb, Bool-cases, if◌then◌else◌}

abbrev pub add32 : ℕ → ℕ → ℕ
add32 a b = (a + b) % 2 ^ 32

-- Behind the end of a ring of size `size`, an index starts again.
wraps : (index size : ℕ) → size ≤ index → index < size + size → index % size ≡ index - size
wraps index size above below =
    mod-eq-sub-mod {n = index} {m = size} above
    ∙ mod-eq_of_lt {n = index - size} {m = size} (omega arith)

-- An index that has gone round a ring once at most, as a test.
pub mod_once :
    (index size : ℕ)
    → index < size + size
    → index % size ≡ (if ltb index size then index else index - size)
mod_once index size below = elim (Bool-cases (ltb index size)) [
  | inl inside ↦ rw inside (mod-eq_of_lt {n = index} {m = size} (ground arith))
  | inr outside ↦ rw outside (wraps index size (ground arith) below)
]

-- `|` and `^` on words of the given number of bits.
abbrev pub or_bits : ℕ → ℕ → ℕ → ℕ
or_bits zero a b = 0
or_bits (suc n) a b = max (a % 2) (b % 2) + 2 * or_bits n (a / 2) (b / 2)

abbrev pub xor_bits : ℕ → ℕ → ℕ → ℕ
xor_bits zero a b = 0
xor_bits (suc n) a b = (a % 2 + b % 2) % 2 + 2 * xor_bits n (a / 2) (b / 2)

pub or_bits_comm : (n a b : ℕ) → or_bits n a b ≡ or_bits n b a
or_bits_comm zero a b = refl
or_bits_comm (suc n) a b = omega (arith, or_bits_comm n (a / 2) (b / 2))

unfoldable pub and_bits : ℕ → ℕ → ℕ → ℕ
and_bits zero a b = 0
and_bits (suc n) a b = min (a % 2) (b % 2) + 2 * and_bits n (a / 2) (b / 2)

-- `uint64_t` addition and subtraction
abbrev pub add64 : ℕ → ℕ → ℕ
add64 a b = (a + b) % 2 ^ 64

abbrev pub sub64 : ℕ → ℕ → ℕ
sub64 a b = (a + 2 ^ 64 - b % 2 ^ 64) % 2 ^ 64
