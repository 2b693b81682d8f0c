-- ===== src/Report/Session/RoundTrips.antt =====
-- The round trip times that a session of src/modules/dpi/report/session_report.c sums up between two
-- reports, and the minimum, maximum and average that it prints.
pub mod Sums
use native.Mathlib.Nat.{mod-eq_of_lt, le-div_iff_mul-le, div-le_of_le-mul, div-lt_self, mul_comm}
use mmt_probe.Base.{
  ◌%◌, ℕ, ◌+◌, ◌*◌, ◌/◌, ◌^◌, ◌≤◌, ◌<◌, ◌≡◌, ◌≢◌, ◌⊎◌, inl, inr, refl, ◌∙◌, true, false, Option,
  none, some, ltb, ◌==◌, if◌then◌else◌, Bool-cases, ◌||◌, ◌&&◌, not, arith,
}
use mmt_probe.Base.Words.{add64}
use mmt_probe.Report.Rtt.{Direction, uplink, downlink, other, tcp_rtt_add_packet}
use mmt_probe.Report.Apps.{AppState}
use mmt_probe.Report.Session.{
  FlowStat, at, set_at, RttStat, no_rtt, SessionStat, Packet, RttBase, Numbers, Observed, total_of,
  numbers_of, record_rtt, measure, note_times, note_retransmission, or_zero, on_receiving_packet,
  print_ip_session_report, after_report, Addresses, on_starting_session,
}
use mmt_probe.Report.Session.RoundTrips.Sums.{
  IsSummed, FitsRtt, record_rtt-same, record_rtt-other, record_rtt-IsSummed, record_rtt-IsSummed_ne,
}

-- `_div`, the average that a report prints
abbrev pub div : ℕ → ℕ → ℕ
div a b = if b == 0 then 0 else a / b

-- What a packet measures, if it measures, is a time above 0, and the sums do not wrap.
abbrev pub Measures : RttBase → Packet → SessionStat → Type 0
Measures base p s =
    let n = numbers_of base p in
    let added =
      tcp_rtt_add_packet s.tcp_rtt p.direction n.ack_number n.seq_number (n.data_len % 2 ^ 16)
        p.ts in
    added.counter ≢ 0
    → (0 < or_zero added.usec)
      × FitsRtt s.rtt (other p.direction) added.counter (or_zero added.usec)

-- the life of a session: its begin, its packets and its reports
pub data History (base : RttBase) (printed : AppState → AppState) : SessionStat → Type 0 where
  begins :
      (a : Addresses) (s : SessionStat)
      → on_starting_session true a ≡ some s
      → History base printed s
  receives :
      (s : SessionStat) (proto_index : Option ℕ) (p : Packet)
      → History base printed s
      → Measures base p s
      → History base printed (on_receiving_packet base proto_index p s)
  reports :
      (s : SessionStat) (o : Observed)
      → History base printed s
      → History base printed (print_ip_session_report printed o s).1

no_rtt-IsSummed : (dir : Direction) → IsSummed no_rtt dir
no_rtt-IsSummed uplink = record { low = omega arith; high = omega arith; unset = λ e. refl }
no_rtt-IsSummed downlink = record { low = omega arith; high = omega arith; unset = λ e. refl }

starting-IsSummed :
    (a : Addresses) (s : SessionStat) (dir : Direction)
    → on_starting_session true a ≡ some s
    → IsSummed s.rtt dir
unfolding on_starting_session
starting-IsSummed a s dir e =
    let zero_rtt : s.rtt ≡ no_rtt = ground arith in rw zero_rtt (no_rtt-IsSummed dir)

recorded-IsSummed :
    (to dir : Direction) (c u : ℕ) (r : RttStat)
    → 0 < u
    → FitsRtt r to c u
    → IsSummed r dir
    → IsSummed (record_rtt to c u r) dir
recorded-IsSummed uplink uplink c u r positive fits v =
    record_rtt-IsSummed uplink c u r positive fits v
recorded-IsSummed downlink downlink c u r positive fits v =
    record_rtt-IsSummed downlink c u r positive fits v
recorded-IsSummed uplink downlink c u r positive fits v = record_rtt-IsSummed_ne downlink c u r v
recorded-IsSummed downlink uplink c u r positive fits v = record_rtt-IsSummed_ne uplink c u r v

rtt-note_times : (p : Packet) (s : SessionStat) → (note_times p s).rtt ≡ s.rtt
unfolding note_times
rtt-note_times p s = ground arith

-- The sums stay, or a measurement is recorded.
rtt-measure :
    (p : Packet) (n : Numbers) (s : SessionStat)
    → let added =
        tcp_rtt_add_packet s.tcp_rtt p.direction n.ack_number n.seq_number
          (n.data_len % 2 ^ 16)
          p.ts in
      ((measure p n s).rtt ≡ s.rtt)
      ⊎ ((added.counter ≢ 0)
          × ((measure p n s).rtt
              ≡ record_rtt (other p.direction) added.counter (or_zero added.usec) s.rtt))
unfolding measure
rtt-measure p n s =
    let added =
      tcp_rtt_add_packet s.tcp_rtt p.direction n.ack_number n.seq_number (n.data_len % 2 ^ 16)
        p.ts in
    elim (Bool-cases (not (n.ack_number == 0) && not (n.seq_number == 0))) [
      | inl e ↦ elim (Bool-cases (added.counter == 0)) [
        | inl z ↦ inl (rw (e, z) refl)
        | inr z ↦ inr (ground arith, rw (e, z) refl)
      ]
      | inr e ↦ inl (rw e refl)
    ]

measure-IsSummed :
    (base : RttBase) (p : Packet) (s : SessionStat) (dir : Direction)
    → Measures base p s
    → IsSummed s.rtt dir
    → IsSummed (measure p (numbers_of base p) s).rtt dir
measure-IsSummed base p s dir measures v = elim (rtt-measure p (numbers_of base p) s) [
  | inl e ↦ rw e v
  | inr (counts, e) ↦
      let (positive, fits) = measures counts in
      rw e (recorded-IsSummed (other p.direction) dir _ _ s.rtt positive fits v)
]

receiving-IsSummed :
    (base : RttBase) (proto_index : Option ℕ) (p : Packet) (s : SessionStat) (dir : Direction)
    → Measures base p s
    → IsSummed s.rtt dir
    → IsSummed (on_receiving_packet base proto_index p s).rtt dir
unfolding on_receiving_packet
receiving-IsSummed base none p s dir measures v = v
receiving-IsSummed base (some i) p s dir measures v =
    rw (rtt-note_times p (measure p (numbers_of base p) (note_retransmission p s)))
      (measure-IsSummed base p (note_retransmission p s) dir measures v)

report-IsSummed :
    (printed : AppState → AppState) (o : Observed) (s : SessionStat) (dir : Direction)
    → IsSummed s.rtt dir
    → IsSummed (print_ip_session_report printed o s).1.rtt dir
unfolding print_ip_session_report after_report
report-IsSummed printed o s dir v =
    elim (Bool-cases (total_of o.counters.packets == total_of s.packets)) [
      | inl e ↦ rw e v
      | inr e ↦ rw e (no_rtt-IsSummed dir)
    ]

History-IsSummed :
    {base : RttBase} {printed : AppState → AppState} {s : SessionStat} (dir : Direction)
    → History base printed s
    → IsSummed s.rtt dir
History-IsSummed dir (begins a s e) = starting-IsSummed a s dir e
History-IsSummed {base} dir (receives s i p h m) =
    receiving-IsSummed base i p s dir m (History-IsSummed dir h)
History-IsSummed {printed = printed} dir (reports s o h) =
    report-IsSummed printed o s dir (History-IsSummed dir h)

div-between :
    (low high sum counter : ℕ)
    → counter ≢ 0
    → low * counter ≤ sum
    → sum ≤ high * counter
    → (low ≤ div sum counter) × (div sum counter ≤ high)
div-between low high sum counter ne a b =
    let some_of : (counter == 0) ≡ false = ground arith in
    rw some_of (
      (le-div_iff_mul-le {k = counter} {x = low} {y = sum} (omega arith)).1 a,
      div-le_of_le-mul counter {m = sum} {n = high} (rw (mul_comm counter high) b),
    )

-- At every moment of a session whose packets measure times above 0 and whose sums do not wrap, in
-- each direction with a measurement since the last report: the average that a report prints lies
-- between the minimum and the maximum that it prints.
pub average-between :
    {base : RttBase} {printed : AppState → AppState} {s : SessionStat} (dir : Direction)
    → History base printed s
    → at s.rtt.counter dir ≢ 0
    → (at s.rtt.min_of dir ≤ div (at s.rtt.sum dir) (at s.rtt.counter dir))
      × (div (at s.rtt.sum dir) (at s.rtt.counter dir) ≤ at s.rtt.max_of dir)
average-between {s = s} dir h ne =
    let v = History-IsSummed dir h in
    div-between (at s.rtt.min_of dir) (at s.rtt.max_of dir) (at s.rtt.sum dir)
      (at s.rtt.counter dir) ne v.low v.high

no_rtt-at :
    (dir : Direction)
    → (at no_rtt.sum dir ≡ 0) × (at no_rtt.min_of dir ≡ 0) × (at no_rtt.counter dir ≡ 0)
no_rtt-at uplink = (refl, refl, refl)
no_rtt-at downlink = (refl, refl, refl)

-- Where the first measurement since a report is 0, however many segments it acknowledges, and the
-- next is above 0 and acknowledges one segment, the minimum that is printed is the second one, and lies above the average.
pub zero_measured-lost :
    (dir : Direction) (c u : ℕ)
    → 0 < c
    → 0 < u
    → u < 2 ^ 64
    → c + 1 < 2 ^ 64
    → let r = record_rtt dir 1 u (record_rtt dir c 0 no_rtt) in
      (at r.min_of dir ≡ u) × (div (at r.sum dir) (at r.counter dir) < at r.min_of dir)
zero_measured-lost dir c u pc pu small few =
    let r1 = record_rtt dir c 0 no_rtt in
    let (a, b, d, e) = record_rtt-same dir c 0 no_rtt in
    let (a', b', d', e') = record_rtt-same dir 1 u r1 in
    let sum_is : at (record_rtt dir 1 u r1).sum dir ≡ u = omega (arith, no_rtt-at dir) in
    let count_is : at (record_rtt dir 1 u r1).counter dir ≡ c + 1 = omega (arith, no_rtt-at dir) in
    let min_is : at (record_rtt dir 1 u r1).min_of dir ≡ u = a' ∙ ground (arith, no_rtt-at dir) in
    let some_of : ((c + 1) == 0) ≡ false = ground arith in
    (
      min_is,
      rw (sum_is, count_is, min_is, some_of) (div-lt_self {n = u} {k = c + 1} pu (omega arith)),
    )
