-- ===== src/Capture/Timer.antt =====
-- The milestones of a worker thread, `_worker_thread` of
-- src/modules/packet_capture/pcap/pcap_capture.c: when it makes statistics and flushes its output.
use native.Mathlib.Nat.{add-mul}
use mmt_probe.Base.{
  ℕ, max, ◌+◌, ◌-◌, ◌*◌, ◌≤◌, ◌≡◌, ◌≢◌, ◌⊎◌, refl, inl, inr, Bool, true, false, Bool-cases, ◌&&◌,
  not, List, [], ◌∷◌, ltb, ◌==◌, if◌then◌else◌, arith,
}

-- What is used of the configuration.
pub record Periods : Type 0 where
  pub stat_period : ℕ
  pub cache_period : ℕ
  pub is_sampled : Bool

-- the two milestones
pub record Milestones : Type 0 where
  pub next_stat_ts : ℕ
  pub next_output_ts : ℕ

-- the timers called: `worker_on_timer_stat_period`, `worker_on_timer_sample_file_period`
pub record Called : Type 0 where
  pub stat : Bool
  pub sample : Bool

-- The end of a turn of the loop, at the time `now`.
pub check_milestones : Periods → ℕ → Milestones → Called × Milestones
check_milestones p now m =
    if m.next_output_ts == 0 && not (now == 0)
    then (
      record { stat = false; sample = false },
      record { next_stat_ts = now + p.stat_period; next_output_ts = now + p.cache_period },
    )
    else (let stat = ltb m.next_stat_ts now in
        let sample = p.is_sampled && ltb m.next_output_ts now in
        (
          record { stat = stat; sample = sample },
          record {
            next_stat_ts = if stat then m.next_stat_ts + p.stat_period else m.next_stat_ts;
            next_output_ts = if sample then m.next_output_ts + p.cache_period else m.next_output_ts;
          },
        ))

-- before the first packet
abbrev pub not_begun : Milestones
not_begun = record { next_stat_ts = 0; next_output_ts = 0 }

abbrev number_of : Bool → ℕ
number_of b = if b then 1 else 0

-- Turns of the loop: how often each timer is called, and the milestones.
abbrev pub turns : Periods → List ℕ → Milestones → ℕ × ℕ × Milestones
turns p [] m = (0, 0, m)
turns p (now ∷ nows) m =
    let (called, m') = check_milestones p now m in
    let (stats, samples, last) = turns p nows m' in
    (number_of called.stat + stats, number_of called.sample + samples, last)

-- No time of the list is above the limit.
abbrev pub Below : ℕ → List ℕ → Type 0
Below limit [] = Unit {0}
Below limit (now ∷ nows) = (now ≤ limit) × Below limit nows

-- No time lies more than a period behind the one before.
abbrev pub Steady : ℕ → ℕ → List ℕ → Type 0
Steady period before [] = Unit {0}
Steady period before (now ∷ nows) = (now ≤ before + period) × Steady period now nows

abbrev pub last_time : ℕ → List ℕ → ℕ
last_time before [] = before
last_time before (now ∷ nows) = last_time now nows

-- A turn moves a milestone by its period if the timer is called, which needs a time behind it.
turn_moves :
    (p : Periods) (now limit : ℕ) (m : Milestones)
    → m.next_output_ts ≢ 0
    → now ≤ limit
    → let (called, m') = check_milestones p now m in
      (m'.next_stat_ts ≡ number_of called.stat * p.stat_period + m.next_stat_ts)
      × (m'.next_output_ts ≡ number_of called.sample * p.cache_period + m.next_output_ts)
      × (m'.next_stat_ts ≤ max m.next_stat_ts (limit - 1 + p.stat_period))
      × (m'.next_output_ts ≤ max m.next_output_ts (limit - 1 + p.cache_period))
unfolding check_milestones
turn_moves p now limit m h k = ground arith

turns_move :
    (p : Periods) (limit : ℕ) (nows : List ℕ) (m : Milestones)
    → m.next_output_ts ≢ 0
    → Below limit nows
    → let (stats, samples, last) = turns p nows m in
      (last.next_stat_ts ≡ stats * p.stat_period + m.next_stat_ts)
      × (last.next_output_ts ≡ samples * p.cache_period + m.next_output_ts)
      × (last.next_stat_ts ≤ max m.next_stat_ts (limit - 1 + p.stat_period))
      × (last.next_output_ts ≤ max m.next_output_ts (limit - 1 + p.cache_period))
turns_move p limit [] m h k = (omega arith, omega arith, omega arith, omega arith)
turns_move p limit (now ∷ nows) m h (k, ks) =
    let (called, m') = check_milestones p now m in
    let (a, b, c, d) = turn_moves p now limit m h k in
    let (e, f, g, i) = turns_move p limit nows m' (λ z. h (omega (arith, b))) ks in
    let (stats, samples, last) = turns p nows m' in
    let x = add-mul (number_of called.stat) stats p.stat_period in
    let y = add-mul (number_of called.sample) samples p.cache_period in
    (omega (arith, a, e, x), omega (arith, b, f, y), omega (arith, a, c, g), omega (arith, b, d, i))

-- A timer that has been called in time has its milestone not before the turn.
turn_follows :
    (p : Periods) (before now : ℕ) (m : Milestones)
    → m.next_output_ts ≢ 0
    → let m' = (check_milestones p now m).1 in
      (before ≤ m.next_stat_ts → now ≤ before + p.stat_period → now ≤ m'.next_stat_ts)
      × (p.is_sampled ≡ true
          → before ≤ m.next_output_ts
          → now ≤ before + p.cache_period
          → now ≤ m'.next_output_ts)
unfolding check_milestones
turn_follows p before now m h = (λ a b. ground arith, λ s a b. ground arith)

turns_follow :
    (p : Periods) (before : ℕ) (nows : List ℕ) (m : Milestones)
    → m.next_output_ts ≢ 0
    → before ≤ m.next_stat_ts
    → Steady p.stat_period before nows
    → last_time before nows ≤ (turns p nows m).2.next_stat_ts
turns_follow p before [] m h a s = a
turns_follow p before (now ∷ nows) m h a (k, s) =
    let m' = (check_milestones p now m).1 in
    let moved = turn_moves p now now m h (omega arith) in
    turns_follow p now nows m' (λ z. h (omega (arith, moved.1)))
      ((turn_follows p before now m h).0 a k) s

turns_follow_output :
    (p : Periods) (before : ℕ) (nows : List ℕ) (m : Milestones)
    → p.is_sampled ≡ true
    → m.next_output_ts ≢ 0
    → before ≤ m.next_output_ts
    → Steady p.cache_period before nows
    → last_time before nows ≤ (turns p nows m).2.next_output_ts
turns_follow_output p before [] m on h a s = a
turns_follow_output p before (now ∷ nows) m on h a (k, s) =
    let m' = (check_milestones p now m).1 in
    let moved = turn_moves p now now m h (omega arith) in
    turns_follow_output p now nows m' on (λ z. h (omega (arith, moved.1)))
      ((turn_follows p before now m h).1 on a k) s

turn_unsampled :
    (p : Periods) (now : ℕ) (m : Milestones)
    → p.is_sampled ≡ false
    → (check_milestones p now m).0.sample ≡ false
unfolding check_milestones
turn_unsampled p now m off = ground arith

turns_unsampled :
    (p : Periods) (nows : List ℕ) (m : Milestones) → p.is_sampled ≡ false → (turns p nows m).1 ≡ 0
turns_unsampled p [] m off = refl
turns_unsampled p (now ∷ nows) m off =
    rw (turn_unsampled p now m off)
      (omega (arith, turns_unsampled p nows (check_milestones p now m).1 off))

begins :
    (p : Periods) (first : ℕ)
    → first ≢ 0
    → check_milestones p first not_begun ≡ (
      record { stat = false; sample = false },
      record { next_stat_ts = first + p.stat_period; next_output_ts = first + p.cache_period },
    )
unfolding check_milestones
begins p first h = ground arith

-- From the first turn with a time, `first`, on, the times of the turns being at most `limit`, and none
-- more than a period of either timer behind the one before: the milestone of the statistics is one
-- period behind `first` for each call of its timer and one more, and likewise that of the output. The
-- timer of the statistics has been called as often as whole periods have gone by before the last
-- turn, but one that ends with it: the calls, each one period long, end before the limit, and one more
-- period does not end before the last turn. The same holds of the timer of the output where the files
-- are sampled; else it is never called.
pub timers-paced :
    (p : Periods) (first limit : ℕ) (nows : List ℕ)
    → first ≢ 0
    → first ≤ limit
    → Below limit nows
    → Steady p.stat_period first nows
    → Steady p.cache_period first nows
    → let (stats, samples, last) = turns p (first ∷ nows) not_begun in
      (last.next_stat_ts ≡ first + (stats + 1) * p.stat_period)
      × (last.next_output_ts ≡ first + (samples + 1) * p.cache_period)
      × (stats * p.stat_period ≤ limit - first - 1)
      × (samples * p.cache_period ≤ limit - first - 1)
      × (last_time first nows ≤ first + (stats + 1) * p.stat_period)
      × (((p.is_sampled ≡ true) × (last_time first nows ≤ first + (samples + 1) * p.cache_period))
          ⊎ ((p.is_sampled ≡ false) × (samples ≡ 0)))
timers-paced p first limit nows h k below stat_steady output_steady =
    let m : Milestones = record {
      next_stat_ts = first + p.stat_period;
      next_output_ts = first + p.cache_period;
    } in
    let begun : m.next_output_ts ≢ 0 = λ z. h (omega arith) in
    let (a, b, c, d) = turns_move p limit nows m begun below in
    let (stats, samples, last) = turns p nows m in
    let x = add-mul stats 1 p.stat_period in
    let y = add-mul samples 1 p.cache_period in
    let late = turns_follow p first nows m begun (omega arith) stat_steady in
    rw (begins p first h) (
      omega (arith, a, x),
      omega (arith, b, y),
      omega (arith, a, c),
      omega (arith, b, d),
      omega (arith, a, x, late),
      elim (Bool-cases p.is_sampled) [
        | inl on ↦
            let due = turns_follow_output p first nows m on begun (omega arith) output_steady in
            inl (on, omega (arith, b, y, due))
        | inr off ↦ inr (off, omega (arith, turns_unsampled p nows m off))
      ],
    )
