-- ===== src/Text/Number/Size.antt =====
-- The number of decimal digits, and `size_of`.
use native.Mathlib.Nat.{pow-suc}
use mmt_probe.Base.{ℕ, zero, suc, ◌-◌, ◌/◌, ◌^◌, ◌≤◌, ◌<◌, ◌≡◌, arith}
use mmt_probe.Text.Number.{size_of}

-- The value is written with this many digits, the first of them not 0.
abbrev pub HasDigits : ℕ → ℕ → Type 0
HasDigits zero v = v ≡ 0
HasDigits (suc n) v = (0 < v) × HasDigits n (v / 10)

abbrev Between : ℕ → ℕ → Type 0
Between n v = (10 ^ (n - 1) ≤ v) × (v < 10 ^ n)

size_of-Between :
    (v : ℕ) → 10 ≤ v → v < 2 ^ 64 → Between (size_of v) v × (1 ≤ size_of v) × (size_of v ≤ 20)
unfolding size_of
size_of-Between v h k = ground arith

digits-Between : (n v : ℕ) → 10 ^ n ≤ v → v < 10 ^ suc n → HasDigits (suc n) v
digits-Between zero v h k = omega arith
digits-Between (suc n) v h k =
    let a = pow-suc 10 n in
    let b = pow-suc 10 (suc n) in
    let p : 1 ≤ 10 ^ n = pos n in
    (omega (arith, a), digits-Between n (v / 10) (omega (arith, a)) (omega (arith, a, b)))
  where
    pos : (m : ℕ) → 1 ≤ 10 ^ m
    pos zero = omega arith
    pos (suc m) = omega (arith, pow-suc 10 m, pos m)

pub size_of-HasDigits : (v : ℕ) → 10 ≤ v → v < 2 ^ 64 → HasDigits (size_of v) v × (size_of v ≤ 20)
size_of-HasDigits v h k =
    let (b, l, u) = size_of-Between v h k in
    let e : size_of v ≡ suc (size_of v - 1) = omega arith in
    (rw e (digits-Between (size_of v - 1) v b.0 (rw (← e) b.1)), u)
