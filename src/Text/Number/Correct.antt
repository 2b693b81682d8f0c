-- ===== src/Text/Number/Correct.antt =====
-- The text that `append_number` writes.
use mmt_probe.Base.{
  ℕ, zero, suc, ◌+◌, ◌-◌, ◌*◌, ◌/◌, ◌%◌, ◌^◌, ◌≤◌, ◌<◌, ◌≡◌, ◌≢◌, ◌⊎◌, refl, subst, ◌∙◌, true,
  false, [], ◌∷◌, ◌++◌, length, length-append, get_or, set, drop, ltb, leb, lt→ltb, le→ltb,
  if◌then◌else◌, arith, Bool-cases, inl, inr,
}
use mmt_probe.Base.Bytes.{Bytes}
use mmt_probe.Text.Number.{size_of, append_number}
use mmt_probe.Text.Number.Size.{HasDigits, size_of-HasDigits}
use mmt_probe.Text.Number.Write.{digits_of, write_number_lem}

-- The number that a reader takes a text of digits for, after `acc`.
abbrev pub read_number : ℕ → Bytes → ℕ
read_number acc [] = acc
read_number acc (c ∷ s) = read_number (acc * 10 + (c - b'0')) s

abbrev pub AllDigits : Bytes → Type 0
AllDigits [] = Unit {0}
AllDigits (c ∷ s) = (b'0' ≤ c) × (c ≤ b'9') × AllDigits s

-- The text is digits alone, is read as the number, and has no '0' in front but that of 0 itself.
pub record IsDecimal (s : Bytes) (v : ℕ) : Type 0 where
  pub all_digits : AllDigits s
  pub reads : read_number 0 s ≡ v
  pub not_empty : 1 ≤ length s
  pub no_zero : (length s ≡ 1) ⊎ (get_or s 0 0 ≢ b'0')

read_number-append :
    (acc : ℕ) (s : Bytes) (c : ℕ)
    → read_number acc (s ++ c ∷ []) ≡ read_number acc s * 10 + (c - b'0')
read_number-append acc [] c = refl
read_number-append acc (x ∷ s) c = read_number-append (acc * 10 + (x - b'0')) s c

AllDigits-append : (s : Bytes) (c : ℕ) → AllDigits s → b'0' ≤ c → c ≤ b'9' → AllDigits (s ++ c ∷ [])
AllDigits-append [] c h a b = (a, b, tt)
AllDigits-append (x ∷ s) c h a b = (h.0, h.1, AllDigits-append s c h.2 a b)

pub length-digits_of : (n v : ℕ) → length (digits_of n v) ≡ n
length-digits_of zero v = refl
length-digits_of (suc n) v = omega (
  arith,
  length-append (digits_of n (v / 10)) ((b'0' + v % 10) ∷ []),
  length-digits_of n (v / 10),
)

digits_of-AllDigits : (n v : ℕ) → AllDigits (digits_of n v)
digits_of-AllDigits zero v = tt
digits_of-AllDigits (suc n) v =
    AllDigits-append (digits_of n (v / 10)) (b'0' + v % 10) (digits_of-AllDigits n (v / 10))
      (omega arith) (omega arith)

read-digits_of : (n v : ℕ) → HasDigits n v → read_number 0 (digits_of n v) ≡ v
read-digits_of zero v h = omega arith
read-digits_of (suc n) v h =
    read_number-append 0 (digits_of n (v / 10)) (b'0' + v % 10)
    ∙ omega (arith, read-digits_of n (v / 10) h.1)

get_or-front : (s : Bytes) (c : ℕ) → 1 ≤ length s → get_or (s ++ c ∷ []) 0 0 ≡ get_or s 0 0
get_or-front [] c h = absurd (omega arith)
get_or-front (x ∷ s) c h = refl

-- The first digit of a number is not '0'.
digits_of-front : (n v : ℕ) → HasDigits (suc n) v → get_or (digits_of (suc n) v) 0 0 ≢ b'0'
digits_of-front zero v h = omega arith
digits_of-front (suc n) v h =
    rw
      (get_or-front (digits_of (suc n) (v / 10)) (b'0' + v % 10)
        (omega (arith, length-digits_of (suc n) (v / 10))))
      (digits_of-front n (v / 10) h.1)

digits_of-IsDecimal : (n v : ℕ) → HasDigits (suc n) v → IsDecimal (digits_of (suc n) v) v
digits_of-IsDecimal n v h = record {
  all_digits = digits_of-AllDigits (suc n) v;
  reads = read-digits_of (suc n) v h;
  not_empty = omega (arith, length-digits_of (suc n) v);
  no_zero = inr (digits_of-front n v h);
}

-- the decimal text
abbrev pub decimal : ℕ → Bytes
decimal v = if ltb v 10 then (b'0' + v) ∷ [] else digits_of (size_of v) v

pub decimal-IsDecimal : (v : ℕ) → v < 2 ^ 64 → IsDecimal (decimal v) v
decimal-IsDecimal v h = elim (Bool-cases (ltb v 10)) [
  | inl small ↦ rw small (record {
    all_digits = (omega arith, ground arith, tt);
    reads = omega arith;
    not_empty = omega arith;
    no_zero = inl (omega arith);
  })
  | inr large ↦
      let (d, u) = size_of-HasDigits v (ground arith) h in
      let e : size_of v ≡ suc (size_of v - 1) = size_pos (size_of v) (ground arith) d in
      rw (large, e) (digits_of-IsDecimal (size_of v - 1) v (subst (λ n. HasDigits n v) e d))
]
  where
    size_pos : (n : ℕ) → 0 < v → HasDigits n v → n ≡ suc (n - 1)
    size_pos zero p d = absurd (omega arith)
    size_pos (suc n) p d = omega arith

size_of_small : (v : ℕ) → v < 10 → size_of v ≡ 2
unfolding size_of
size_of_small v h = ground arith

set_front : (dst : Bytes) (c : ℕ) → 1 ≤ length dst → set dst 0 c ≡ c ∷ drop 1 dst
set_front [] c h = absurd (omega arith)
set_front (x ∷ dst) c h = refl

append_one :
    (dst : Bytes) (dst_size v : ℕ)
    → v < 10
    → dst_size ≤ length dst
    → append_number dst dst_size v
      ≡ (if leb 1 dst_size then (1, (b'0' + v) ∷ drop 1 dst) else (0, dst))
unfolding append_number
append_one dst zero v h k = rw (lt→ltb v 10 h, size_of_small v h)
append_one dst (suc n) v h k =
    let a : ltb 0 (suc n) ≡ true = ground arith in
    let b : leb 1 (suc n) ≡ true = ground arith in
    rw (lt→ltb v 10 h, a, b, set_front dst (b'0' + v) (omega arith))

append_digits :
    (dst : Bytes) (dst_size v : ℕ)
    → 10 ≤ v
    → v < 2 ^ 64
    → dst_size ≤ length dst
    → append_number dst dst_size v ≡ (
        if leb (size_of v) dst_size
        then (size_of v, digits_of (size_of v) v ++ drop (size_of v) dst)
        else (0, dst))
unfolding append_number
append_digits dst dst_size v h k l =
    let (d, u) = size_of-HasDigits v h k in
    elim (Bool-cases (ltb dst_size (size_of v))) [
      | inl over ↦
          let n : leb (size_of v) dst_size ≡ false = ground arith in rw (le→ltb v 10 h, over, n)
      | inr fits ↦
          let n : leb (size_of v) dst_size ≡ true = ground arith in
          rw (le→ltb v 10 h, fits, n, write_number_lem (size_of v) v dst d u (ground arith))
    ]

pub append_number-decimal :
    (dst : Bytes) (dst_size v : ℕ)
    → v < 2 ^ 64
    → dst_size ≤ length dst
    → append_number dst dst_size v ≡ (
        if leb (length (decimal v)) dst_size
        then (length (decimal v), decimal v ++ drop (length (decimal v)) dst)
        else (0, dst))
append_number-decimal dst dst_size v h k = elim (Bool-cases (ltb v 10)) [
  | inl small ↦ rw small (append_one dst dst_size v (ground arith) k)
  | inr large ↦
      rw (large, length-digits_of (size_of v) v) (append_digits dst dst_size v (ground arith) h k)
]

-- `append_number` writes the decimal text of a 64-bit value to the front of the memory, and returns
-- its length, if the text fits into `dst_size`; else it writes nothing and returns 0. The bytes
-- behind the text stay as they are.
pub append_number_lem :
    (dst : Bytes) (dst_size v : ℕ)
    → v < 2 ^ 64
    → dst_size ≤ length dst
    → (s : Bytes) × IsDecimal s v
      × (append_number dst dst_size v
          ≡ (if leb (length s) dst_size then (length s, s ++ drop (length s) dst) else (0, dst)))
append_number_lem dst dst_size v h k =
    (decimal v, decimal-IsDecimal v h, append_number-decimal dst dst_size v h k)
