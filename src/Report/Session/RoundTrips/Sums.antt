-- ===== src/Report/Session/RoundTrips/Sums.antt =====
-- What a measured round trip makes of the sums of src/modules/dpi/report/session_report.c.
use native.Mathlib.Nat.{mod-eq_of_lt}
use mmt_probe.Base.{
  ℕ, ◌+◌, ◌*◌, ◌^◌, ◌≤◌, ◌<◌, ◌≡◌, inl, inr, refl, ltb, ◌==◌, if◌then◌else◌, Bool-cases, ◌||◌,
  arith,
}
use mmt_probe.Base.Words.{add64}
use mmt_probe.Report.Rtt.{Direction, uplink, downlink, other}
use mmt_probe.Report.Session.{FlowStat, at, set_at, RttStat, record_rtt}

-- The sum lies between the minimum and the maximum of as many measurements as were counted.
pub record IsSummed (r : RttStat) (dir : Direction) : Type 0 where
  pub low : at r.min_of dir * at r.counter dir ≤ at r.sum dir
  pub high : at r.sum dir ≤ at r.max_of dir * at r.counter dir
  pub unset : at r.min_of dir ≡ 0 → at r.counter dir ≡ 0

at-set_at : (f : FlowStat) (dir : Direction) (n : ℕ) → at (set_at f dir n) dir ≡ n
at-set_at f uplink n = refl
at-set_at f downlink n = refl

at-set_at_ne : (f : FlowStat) (dir : Direction) (n : ℕ) → at (set_at f (other dir) n) dir ≡ at f dir
at-set_at_ne f uplink n = refl
at-set_at_ne f downlink n = refl

-- a minimum of the old measurements and of `c` new ones, times their number
low_step :
    (sum min counter c u m : ℕ)
    → min * counter ≤ sum
    → m * counter ≤ min * counter
    → m ≤ u
    → m * (counter + c) ≤ sum + u * c
low_step sum min counter c u m low old new = grind arith

high_step :
    (sum max counter c u m : ℕ)
    → sum ≤ max * counter
    → max ≤ m
    → u ≤ m
    → sum + u * c ≤ m * (counter + c)
high_step sum max counter c u m high old new = grind arith

mul_mono : (a b n : ℕ) → a ≤ b → a * n ≤ b * n
mul_mono a b n h = grind arith

abbrev new_min : ℕ → ℕ → ℕ
new_min min u = if min == 0 || ltb u min then u else min

abbrev new_max : ℕ → ℕ → ℕ
new_max max u = if ltb max u then u else max

new_min_old :
    (min counter u : ℕ) → (min ≡ 0 → counter ≡ 0) → new_min min u * counter ≤ min * counter
new_min_old min counter u unset = elim (Bool-cases (min == 0)) [
  | inl e ↦ let z : counter ≡ 0 = unset (ground arith) in rw z (omega arith)
  | inr e ↦ mul_mono (new_min min u) min counter (ground arith)
]

step_low :
    (sum min counter c u : ℕ)
    → min * counter ≤ sum
    → (min ≡ 0 → counter ≡ 0)
    → new_min min u * (counter + c) ≤ sum + u * c
step_low sum min counter c u low unset =
    low_step sum min counter c u (new_min min u) low (new_min_old min counter u unset)
      (ground arith)

step_high :
    (sum max counter c u : ℕ) → sum ≤ max * counter → sum + u * c ≤ new_max max u * (counter + c)
step_high sum max counter c u high =
    high_step sum max counter c u (new_max max u) high (ground arith) (ground arith)

pub record_rtt-same :
    (dir : Direction) (c u : ℕ) (r : RttStat)
    → let r' = record_rtt dir c u r in
      (at r'.min_of dir ≡ new_min (at r.min_of dir) u)
      × (at r'.max_of dir ≡ new_max (at r.max_of dir) u)
      × (at r'.sum dir ≡ add64 (at r.sum dir) (u * c))
      × (at r'.counter dir ≡ add64 (at r.counter dir) c)
unfolding record_rtt
record_rtt-same uplink c u r = ground arith
record_rtt-same downlink c u r = ground arith

pub record_rtt-other :
    (dir : Direction) (c u : ℕ) (r : RttStat)
    → let r' = record_rtt (other dir) c u r in
      (at r'.min_of dir ≡ at r.min_of dir)
      × (at r'.max_of dir ≡ at r.max_of dir)
      × (at r'.sum dir ≡ at r.sum dir)
      × (at r'.counter dir ≡ at r.counter dir)
unfolding record_rtt
record_rtt-other uplink c u r = ground arith
record_rtt-other downlink c u r = ground arith

-- The sum and the number of the measurements stay below 2^64.
abbrev pub FitsRtt : RttStat → Direction → ℕ → ℕ → Type 0
FitsRtt r dir c u = (at r.sum dir + u * c < 2 ^ 64) × (at r.counter dir + c < 2 ^ 64)

pub record_rtt-IsSummed :
    (dir : Direction) (c u : ℕ) (r : RttStat)
    → 0 < u
    → FitsRtt r dir c u
    → IsSummed r dir
    → IsSummed (record_rtt dir c u r) dir
record_rtt-IsSummed dir c u r positive fits v =
    let (a, b, d, e) = record_rtt-same dir c u r in
    let d' : add64 (at r.sum dir) (u * c) ≡ at r.sum dir + u * c =
      mod-eq_of_lt {m = 2 ^ 64} fits.0 in
    let e' : add64 (at r.counter dir) c ≡ at r.counter dir + c = omega arith in
    record {
      low =
          rw (a, d, e, d', e')
            (step_low (at r.sum dir) (at r.min_of dir) (at r.counter dir) c u v.low v.unset);
      high =
          rw (b, d, e, d', e')
            (step_high (at r.sum dir) (at r.max_of dir) (at r.counter dir) c u v.high);
      unset = rw a (λ z. absurd (ground arith));
    }

pub record_rtt-IsSummed_ne :
    (dir : Direction) (c u : ℕ) (r : RttStat)
    → IsSummed r dir
    → IsSummed (record_rtt (other dir) c u r) dir
record_rtt-IsSummed_ne dir c u r v =
    let (a, b, d, e) = record_rtt-other dir c u r in
    record { low = rw (a, d, e) v.low; high = rw (b, d, e) v.high; unset = rw (a, e) v.unset }
