-- ===== src/Config/Check/Powers.antt =====
-- `is_power_of_two` of src/lib/tools.h.
use mmt_probe.Base.{
  ℕ, zero, suc, ◌-◌, ◌*◌, ◌/◌, ◌%◌, ◌^◌, ◌<◌, ◌≤◌, ◌≡◌, ◌≢◌, ◌↔◌, refl, ap, ◌∙◌, true, ◌==◌,
  Bool-cases, inl, inr, arith,
}
use mmt_probe.Base.Words.{and_bits}
use mmt_probe.Config.Check.{is_power_of_two}

and_bits_self : (w x : ℕ) → x < 2 ^ w → and_bits w x x ≡ x
unfolding and_bits
and_bits_self zero x h = omega arith
and_bits_self (suc w) x h = omega (arith, and_bits_self w (x / 2) (omega arith))

and_bits_zero : (w : ℕ) → and_bits w 0 0 ≡ 0
unfolding and_bits
and_bits_zero zero = refl
and_bits_zero (suc w) = omega (arith, and_bits_zero w)

power_positive : (k : ℕ) → 1 ≤ 2 ^ k
power_positive zero = omega arith
power_positive (suc k) = omega (arith, power_positive k)

-- The lowest bit of an even number is clear, so that the others decide.
even-and_bits : (w y : ℕ) → 1 ≤ y → and_bits (suc w) (2 * y) (2 * y - 1) ≡ 2 * and_bits w y (y - 1)
unfolding and_bits
even-and_bits w y h =
    let a : 2 * y / 2 ≡ y = omega arith in
    let b : (2 * y - 1) / 2 ≡ y - 1 = omega arith in
    let c : 2 * y % 2 ≡ 0 = omega arith in rw (a, b, c) (omega arith)

power-and_bits : (w k : ℕ) → k < w → and_bits w (2 ^ k) (2 ^ k - 1) ≡ 0
unfolding and_bits
power-and_bits zero k h = absurd (omega arith)
power-and_bits (suc w) zero h = omega (arith, and_bits_zero w)
power-and_bits (suc w) (suc k) h =
    let p : 2 ^ suc k ≡ 2 * 2 ^ k = omega arith in
    rw p (
      even-and_bits w (2 ^ k) (power_positive k)
      ∙ ap (λ n. 2 * n) (power-and_bits w k (omega arith)))

-- a power of two that fits the word
abbrev pub IsPower : ℕ → ℕ → Type 0
IsPower w x = (k : ℕ) × (k < w) × (x ≡ 2 ^ k)

half-IsPower : (w x : ℕ) → x % 2 ≡ 0 → IsPower w (x / 2) → IsPower (suc w) x
half-IsPower w x even (k, h, e) = (suc k, omega arith, omega arith)

and_bits-IsPower : (w x : ℕ) → x < 2 ^ w → x ≢ 0 → and_bits w x (x - 1) ≡ 0 → IsPower w x
unfolding and_bits
and_bits-IsPower zero x small some_bit none_common = absurd (omega arith)
and_bits-IsPower (suc w) x small some_bit none_common = elim (Bool-cases (x % 2 == 0)) [
  | inl e ↦
      let even : x % 2 ≡ 0 = ground arith in
      let twice : x ≡ 2 * (x / 2) = omega arith in
      let bits : and_bits (suc w) x (x - 1) ≡ 2 * and_bits w (x / 2) (x / 2 - 1) =
        ap (λ n. and_bits (suc w) n (n - 1)) twice ∙ even-and_bits w (x / 2) (omega arith) in
      half-IsPower w x even (and_bits-IsPower w (x / 2) (omega arith) (omega arith) (omega arith))
  | inr e ↦
      let odd : x % 2 ≡ 1 = ground arith in
      let rest : (x - 1) / 2 ≡ x / 2 = omega arith in
      let same : and_bits w (x / 2) ((x - 1) / 2) ≡ x / 2 =
        rw rest (and_bits_self w (x / 2) (omega arith)) in
      (0, omega arith, omega arith)
]

-- Of the values of a `size_t`, the test takes exactly the powers of two.
pub is_power_of_two_iff : (x : ℕ) → x < 2 ^ 64 → (is_power_of_two x ≡ true) ↔ IsPower 64 x
unfolding is_power_of_two
is_power_of_two_iff x small =
    let p = power_bits x in
    ((λ h. and_bits-IsPower 64 x small (ground arith) (ground arith)), (λ h. ground (arith, p h)))
  where
    power_bits : (x : ℕ) → IsPower 64 x → (x ≢ 0) × (and_bits 64 x (x - 1) ≡ 0)
    power_bits x (k, h, e) = (omega (arith, power_positive k), rw e (power-and_bits 64 k h))
