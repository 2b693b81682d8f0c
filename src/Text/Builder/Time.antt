-- ===== src/Text/Builder/Time.antt =====
-- The text that `append_timeval` of `src/lib/string_builder.h` writes.
use mmt_probe.Base.{
  ℕ, zero, suc, ◌+◌, ◌-◌, ◌^◌, ◌≤◌, ◌<◌, ◌≡◌, refl, ap, sym, ◌∙◌, true, false, Bool-cases, inl, inr,
  [], ◌∷◌, ◌++◌, some, append_assoc, length, length-append, take-append, length-replicate,
  replicate, drop, ltb, leb, arith,
}
use mmt_probe.Base.Bytes.{Bytes, drop-append}
use mmt_probe.Text.Number.{size_of}
use mmt_probe.Text.Number.Correct.{decimal, append_number-decimal}
use mmt_probe.Text.Number.Correct.{length-digits_of}
use mmt_probe.Text.Builder.{put, write_usec, append_timeval}
use mmt_probe.Text.Builder.At.{at, cursor, put-at, copy_lem}
use mmt_probe.Report.Rtt.{Timeval}

size_of-le : (v k : ℕ) → 10 ≤ v → v < 10 ^ 3 → size_of v ≤ 3
unfolding size_of
size_of-le v k h l = ground arith

size_of-le_six : (v : ℕ) → 10 ≤ v → v < 10 ^ 6 → size_of v ≤ 6
unfolding size_of
size_of-le_six v h l = ground arith

size_of-le_twelve : (v : ℕ) → 10 ≤ v → v < 10 ^ 12 → size_of v ≤ 12
unfolding size_of
size_of-le_twelve v h l = ground arith

length-decimal : (v n : ℕ) → 1 ≤ n → (10 ≤ v → size_of v ≤ n) → length (decimal v) ≤ n
length-decimal v n one h = elim (Bool-cases (ltb v 10)) [
  | inl e ↦ rw e one
  | inr e ↦ rw (e, length-digits_of (size_of v) v) (h (ground arith))
]

pub length-decimal_byte : (v : ℕ) → v < 256 → length (decimal v) ≤ 3
length-decimal_byte v h = length-decimal v 3 (omega arith) (λ l. size_of-le v 3 l (omega arith))

pub length-decimal_six : (v : ℕ) → v < 10 ^ 6 → length (decimal v) ≤ 6
length-decimal_six v h = length-decimal v 6 (omega arith) (λ l. size_of-le_six v l h)

pub length-decimal_twelve : (v : ℕ) → v < 10 ^ 12 → length (decimal v) ≤ 12
length-decimal_twelve v h = length-decimal v 12 (omega arith) (λ l. size_of-le_twelve v l h)

-- six digits, with zeros in front
abbrev pub usec_text : ℕ → Bytes
usec_text v = replicate (6 - length (decimal v)) b'0' ++ decimal v

abbrev pub time_text : Timeval → Bytes
time_text t = (decimal t.tv_sec ++ b'.' ∷ []) ++ usec_text t.tv_usec

put-over :
    (a b s r : Bytes) → length b ≡ length s → put (length a) s (a ++ (b ++ r)) ≡ a ++ (s ++ r)
unfolding put
put-over a b s r h =
    rw
      (
        take-append a (b ++ r),
        drop-append a (b ++ r) (length a) refl,
        copy_lem s (b ++ r) (omega (arith, length-append b r)),
        drop-append b r (length s) (sym h),
      )
      refl

reassoc : (t z y r : Bytes) → (t ++ (z ++ y)) ++ r ≡ (t ++ z) ++ (y ++ r)
reassoc [] z y r = append_assoc z y r
reassoc (c ∷ t) z y r = ap (◌∷◌ c) (reassoc t z y r)

pad-over :
    (t z y d r : Bytes)
    → length y ≡ length d
    → put (length t + length z) d ((t ++ (z ++ y)) ++ r) ≡ (t ++ (z ++ d)) ++ r
pad-over t z y d r h =
    rw (sym (length-append t z), reassoc t z y r, reassoc t z d r) (put-over (t ++ z) y d r h)

replicate-split : (i j : ℕ) (c : ℕ) → replicate (i + j) c ≡ replicate i c ++ replicate j c
replicate-split zero j c = ap (λ k. replicate k c) (omega arith)
replicate-split (suc i) j c =
    ap (λ k. replicate k c) (step i j) ∙ ap (◌∷◌ c) (replicate-split i j c)
  where
    step : (a b : ℕ) → suc a + b ≡ suc (a + b)
    step a b = omega arith

pub write_usec-at :
    (text : Bytes) (usec : ℕ) (dst : Bytes)
    → length text + 6 ≤ length dst
    → usec < 10 ^ 6
    → write_usec (length text) usec (at text dst) ≡ at (text ++ usec_text usec) dst
unfolding write_usec
write_usec-at text usec dst h k =
    let d = decimal usec in
    let n = length d in
    let s = length-decimal_six usec k in
    let e : leb n 6 ≡ true = ground arith in
    let zeros : replicate 6 b'0' ≡ replicate (6 - n) b'0' ++ replicate n b'0' =
      ap (λ m. replicate m b'0') (split_six n s) ∙ replicate-split (6 - n) n b'0' in
    let lz = length-replicate {A = ℕ} (6 - n) b'0' in
    let ly = length-replicate {A = ℕ} n b'0' in
    rw
      (
        append_number-decimal (replicate 6 0) 6 usec (omega arith) (omega arith),
        e,
        put-at text (replicate 6 b'0') dst h,
        take-append d (drop n (replicate 6 0)),
      )
      (ap (λ w. put (length text + (6 - n)) d (at (text ++ w) dst)) zeros
        ∙ ap
            (λ i.
              put (length text + i) d
                (at (text ++ (replicate (6 - n) b'0' ++ replicate n b'0')) dst))
            (sym lz)
        ∙ pad-over text (replicate (6 - n) b'0') (replicate n b'0') d
            (drop (length (text ++ (replicate (6 - n) b'0' ++ replicate n b'0'))) dst) ly
        ∙ ap (λ i. (text ++ usec_text usec) ++ drop i dst)
            (same_length text (replicate (6 - n) b'0') (replicate n b'0') d ly))
  where
    split_six : (n : ℕ) → n ≤ 6 → 6 ≡ 6 - n + n
    split_six n h = omega arith

    same_length :
        (t z y d : Bytes) → length y ≡ length d → length (t ++ (z ++ y)) ≡ length (t ++ (z ++ d))
    same_length t z y d h = omega (
      arith,
      length-append t (z ++ y),
      length-append t (z ++ d),
      length-append z y,
      length-append z d,
    )

length-usec_text : (usec : ℕ) → usec < 10 ^ 6 → length (usec_text usec) ≡ 6
length-usec_text usec h = omega (
  arith,
  length-decimal_six usec h,
  length-replicate {A = ℕ} (6 - length (decimal usec)) b'0',
  length-append (replicate (6 - length (decimal usec)) b'0') (decimal usec),
)

pub length-time_text :
    (t : Timeval) → t.tv_sec < 10 ^ 12 → t.tv_usec < 10 ^ 6 → length (time_text t) ≤ 19
length-time_text t s u = omega (
  arith,
  length-decimal_twelve t.tv_sec s,
  length-usec_text t.tv_usec u,
  length-append (decimal t.tv_sec) (b'.' ∷ []),
  length-append (decimal t.tv_sec ++ b'.' ∷ []) (usec_text t.tv_usec),
)

-- With room for 19 bytes, a time of at most 12 digits of seconds and of less than a million
-- microseconds is written as the decimal seconds, a point, and the microseconds as six digits,
-- padded with zeros; the bytes behind are left as they are, and the length is returned.
pub append_timeval_lem :
    (dst : Bytes) (n : ℕ) (t : Timeval)
    → 19 ≤ n
    → n ≤ length dst
    → t.tv_sec < 10 ^ 12
    → t.tv_usec < 10 ^ 6
    → append_timeval dst n t ≡ some (cursor (time_text t) dst)
unfolding append_timeval
append_timeval_lem dst n t room fits sec usec =
    let d = decimal t.tv_sec in
    let s = length-decimal_twelve t.tv_sec sec in
    let point = d ++ b'.' ∷ [] in
    let l : length point ≡ length d + 1 = length-append d (b'.' ∷ []) in
    let a : leb (length d) n ≡ true = ground arith in
    let b : ltb n 12 ≡ false = ground arith in
    let c : ltb 12 (length d) ≡ false = ground arith in
    let e : ltb n (length d + 7) ≡ false = ground arith in
    let u = length-append point (usec_text t.tv_usec) in
    let total : length d + 7 ≡ length (time_text t) =
      omega (arith, l, u, length-usec_text t.tv_usec usec) in
    rw
      (
        append_number-decimal dst n t.tv_sec (omega arith) fits,
        a,
        b,
        c,
        e,
        put-at d (b'.' ∷ []) dst (omega arith),
        sym l,
        write_usec-at point t.tv_usec dst (omega arith) usec,
      )
      (ap (λ k. some (k, at (time_text t) dst)) total)
