-- ===== src/Text/Number/Write.antt =====
-- What the two loops of `append_number` write.
use mmt_probe.Base.{
  ℕ, zero, suc, ◌+◌, ◌-◌, ◌*◌, ◌/◌, ◌%◌, ◌≤◌, ◌<◌, ◌≡◌, refl, sym, subst, ap, ◌∙◌, Bool, true,
  false, [], ◌∷◌, ◌++◌, length, length-set, get_or, set, drop, ltb, leb, ◌==◌, ==_iff, append_assoc,
  arith, Bool-cases, inl, inr, ◌&&◌, if◌then◌else◌,
}
use mmt_probe.Base.Bytes.{Bytes}
use mmt_probe.Text.Number.{digit_pairs, write_pair, write_pairs, write_digits, write_number}
use mmt_probe.Text.Number.Size.{HasDigits}

-- The `n` lowest decimal digits, the highest first.
abbrev pub digits_of : ℕ → ℕ → Bytes
digits_of zero v = []
digits_of (suc n) v = digits_of n (v / 10) ++ (b'0' + v % 10) ∷ []

drop-set : (dst : Bytes) (n d : ℕ) → n < length dst → drop n (set dst n d) ≡ d ∷ drop (suc n) dst
drop-set [] n d h = absurd (omega arith)
drop-set (x ∷ dst) zero d h = refl
drop-set (x ∷ dst) (suc n) d h = drop-set dst n d (omega arith)

pub write_digits_lem :
    (n fuel v : ℕ) (dst : Bytes)
    → HasDigits n v
    → n ≤ fuel
    → n ≤ length dst
    → write_digits fuel dst n v ≡ digits_of n v ++ drop n dst
unfolding write_digits
write_digits_lem zero zero v dst h k l = refl
write_digits_lem zero (suc fuel) v dst h k l = rw h
write_digits_lem (suc n) zero v dst h k l = absurd (omega arith)
write_digits_lem (suc n) (suc fuel) v dst h k l =
    let c : ltb 0 v ≡ true = ground (arith, h.0) in
    let i : suc n - 1 ≡ n = omega arith in
    let d = b'0' + v % 10 in
    rw (c, i)
      (write_digits_lem n fuel (v / 10) (set dst n d) h.1 (omega arith)
          (omega (arith, length-set dst n d))
        ∙ rw (drop-set dst n d (omega arith))
            (sym (append_assoc (digits_of n (v / 10)) (d ∷ []) (drop (suc n) dst))))

-- The table has the two digits of `pos` at its place.
is_pair : ℕ → Bool
is_pair pos =
    get_or digit_pairs (2 * pos) 0 == b'0' + pos / 10
    && get_or digit_pairs (2 * pos + 1) 0 == b'0' + pos % 10

first_pairs : ℕ → Bool
first_pairs zero = true
first_pairs (suc pos) = if is_pair pos then first_pairs pos else false

first_pairs-is_pair : (count pos : ℕ) → pos < count → first_pairs count ≡ true → is_pair pos ≡ true
unfolding first_pairs
first_pairs-is_pair zero pos below all = absurd (omega arith)
first_pairs-is_pair (suc last) pos below all = elim (Bool-cases (is_pair last)) [
  | inl here ↦ elim (Bool-cases (pos == last)) [
    | inl e ↦ subst (λ k. is_pair k ≡ true) (sym ((==_iff pos last).0 e)) here
    | inr ne ↦ first_pairs-is_pair last pos (ground arith) (ground arith)
  ]
  | inr missing ↦ absurd (ground arith)
]

table : first_pairs 100 ≡ true
unfolding first_pairs is_pair digit_pairs
table = refl

and_true : (a b : Bool) → (a && b) ≡ true → (a ≡ true) × (b ≡ true)
and_true true b h = (refl, h)
and_true false b h = cc

digit_pairs_lem :
    (p : ℕ)
    → p < 100
    → (get_or digit_pairs (2 * p) 0 ≡ b'0' + p / 10)
      × (get_or digit_pairs (2 * p + 1) 0 ≡ b'0' + p % 10)
unfolding is_pair
digit_pairs_lem p h =
    let (a, b) = and_true _ _ (first_pairs-is_pair 100 p h table) in
    ((==_iff _ _).0 a, (==_iff _ _).0 b)

drop-set_two :
    (dst : Bytes) (n a b : ℕ)
    → suc n < length dst
    → drop n (set (set dst n a) (suc n) b) ≡ a ∷ b ∷ drop (suc (suc n)) dst
drop-set_two [] n a b h = absurd (omega arith)
drop-set_two (x ∷ []) n a b h = absurd (omega arith)
drop-set_two (x ∷ y ∷ dst) zero a b h = refl
drop-set_two (x ∷ y ∷ dst) (suc n) a b h = drop-set_two (y ∷ dst) n a b (omega arith)

-- What one round of the first loop writes.
drop-write_pair :
    (dst : Bytes) (n v : ℕ)
    → suc n < length dst
    → drop n (write_pair dst (suc (suc n)) (v % 100))
      ≡ (b'0' + v / 10 % 10) ∷ (b'0' + v % 10) ∷ drop (suc (suc n)) dst
unfolding write_pair
drop-write_pair dst n v h =
    let i : suc (suc n) - 2 ≡ n = omega arith in
    let j : suc (suc n) - 1 ≡ suc n = omega arith in
    let (a, b) = digit_pairs_lem (v % 100) (omega arith) in
    let a' : v % 100 / 10 ≡ v / 10 % 10 = omega arith in
    let b' : v % 100 % 10 ≡ v % 10 = omega arith in
    rw (i, j, a, b, a', b') (drop-set_two dst n (b'0' + v / 10 % 10) (b'0' + v % 10) h)

length-write_pair : (dst : Bytes) (end pos : ℕ) → length (write_pair dst end pos) ≡ length dst
unfolding write_pair
length-write_pair dst end pos = length-set _ (end - 1) _ ∙ length-set dst (end - 2) _

-- both loops, with fuel for the first
abbrev loops : ℕ → Bytes → ℕ → ℕ → Bytes
loops fuel dst n v = let (dst', end, v') = write_pairs fuel dst n v in write_digits 20 dst' end v'

loops-next :
    (fuel : ℕ) (dst : Bytes) (n v : ℕ)
    → 100 ≤ v
    → loops (suc fuel) dst n v ≡ loops fuel (write_pair dst n (v % 100)) (n - 2) (v / 100)
unfolding write_pairs
loops-next fuel dst n v h = let c : leb 100 v ≡ true = ground arith in rw c

loops-last :
    (fuel : ℕ) (dst : Bytes) (n v : ℕ) → v < 100 → loops fuel dst n v ≡ write_digits 20 dst n v
unfolding write_pairs
loops-last zero dst n v h = refl
loops-last (suc fuel) dst n v h = let c : leb 100 v ≡ false = ground arith in rw c

loops_lem :
    (fuel n v : ℕ) (dst : Bytes)
    → HasDigits n v
    → n ≤ 20
    → n ≤ fuel
    → n ≤ length dst
    → loops fuel dst n v ≡ digits_of n v ++ drop n dst
loops_lem fuel zero v dst h t k l =
    loops-last fuel dst 0 v (omega arith) ∙ write_digits_lem 0 20 v dst h t l
loops_lem fuel (suc zero) v dst h t k l =
    loops-last fuel dst 1 v (omega arith) ∙ write_digits_lem 1 20 v dst h t l
loops_lem zero (suc (suc n)) v dst h t k l = absurd (omega arith)
loops_lem (suc fuel) (suc (suc n)) v dst h t k l =
    let a = b'0' + v / 10 % 10 in
    let b = b'0' + v % 10 in
    let q : v / 100 ≡ v / 10 / 10 = omega arith in
    let i : suc (suc n) - 2 ≡ n = omega arith in
    let dst' = write_pair dst (suc (suc n)) (v % 100) in
    elim (Bool-cases (leb 100 v)) [
      | inr small ↦
          loops-last (suc fuel) dst (suc (suc n)) v (ground arith)
          ∙ write_digits_lem (suc (suc n)) 20 v dst h t l
      | inl big ↦
          loops-next fuel dst (suc (suc n)) v (ground arith)
          ∙ rw (i, q)
              (loops_lem fuel n (v / 10 / 10) dst' h.1.1 (omega arith) (omega arith)
                (omega (arith, length-write_pair dst (suc (suc n)) (v % 100))))
          ∙ ap (λ m. digits_of n (v / 10 / 10) ++ m) (drop-write_pair dst n v (omega arith))
          ∙ sym (
              append_assoc (digits_of n (v / 10 / 10) ++ a ∷ []) (b ∷ []) (drop (suc (suc n)) dst)
              ∙ append_assoc (digits_of n (v / 10 / 10)) (a ∷ []) (b ∷ drop (suc (suc n)) dst))
    ]

pub write_number_lem :
    (n v : ℕ) (dst : Bytes)
    → HasDigits n v
    → n ≤ 20
    → n ≤ length dst
    → write_number dst n v ≡ digits_of n v ++ drop n dst
unfolding write_number
write_number_lem n v dst h t l = loops_lem 20 n v dst h t t l
