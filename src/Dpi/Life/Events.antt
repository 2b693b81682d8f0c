-- ===== src/Dpi/Life/Events.antt =====
-- What happens to a session of src/modules/dpi/dpi.c between its start and its end.
use mmt_probe.Base.{
  ℕ, ◌+◌, ◌%◌, ◌^◌, ◌≤◌, ◌≡◌, refl, ap, ◌∙◌, sym, true, Bool-cases, inl, inr, List, [], ◌∷◌, ◌++◌,
  Option, none, some, ◌>>=◌, ◌==◌, ==_iff, arith,
}
use mmt_probe.Report.MicroFlow.{MicroFlowConf, Session, MicroFlowStats}
use mmt_probe.Report.Session.{
  SessionStat, RttBase, Packet, Numbers, numbers_of, measure, note_times, note_retransmission,
  on_receiving_packet, Counters, Observed, total_of, Report, print_ip_session_report, after_report,
}
use mmt_probe.Report.Session.Figures.{
  Kind, Part, counted, part_of, sum_of, remembered, figure-report_of,
}
use mmt_probe.Dpi.Dump.{Dump}
use mmt_probe.Base.Bytes.{Bytes}
use mmt_probe.Report.Rtt.{Timeval}
use mmt_probe.Dpi.Life.Web.{web_method}
use mmt_probe.Dpi.Life.{
  PacketSession, DpiContext, Created, create_session, session_packet, period_session_report,
  reported, Ended, ending_session_handler,
}

-- what happens to a session between its start and its end
pub data Event : Type 0 where
  packet : Option ℕ → Packet → Event
  period : Session → Observed → Event
  request : Timeval → Option Bytes → Observed → Event

-- `_web_method_handle`, which does nothing for a session without statistics
pub request_event :
    Timeval → Option Bytes → Observed → PacketSession → Option (List Report × PacketSession)
request_event ts val o session = elim session.session_stat [
  | none ↦ some ([], session)
  | some s ↦ (do
    (reports, s') ← web_method ts val o s
    some (reports, record session { session_stat = some s' }))
]

-- A context with reports of sessions and of micro flows.
abbrev pub reporting : MicroFlowConf → List MicroFlowStats → RttBase → Option Dump → DpiContext
reporting config stats base dump = record {
  micro_reports = some (config, stats);
  is_enable = true;
  rtt_base = base;
  pcap_dump = dump;
}

-- the reports of the events, and the session behind them
unfoldable pub run_events :
    DpiContext → Created → List Event → PacketSession → Option (List Report × PacketSession)
run_events context c [] session = some ([], session)
run_events context c (packet i p ∷ es) session = do
  session' ← session_packet context c i p (some session)
  run_events context c es session'
run_events context c (period m o ∷ es) session =
    let (reports, session') = period_session_report context m o session in
    do (later, last) ← run_events context c es session'; some (reports ++ later, last)
run_events context c (request ts val o ∷ es) session = do
  (reports, session') ← request_event ts val o session
  (later, last) ← run_events context c es session'
  some (reports ++ later, last)

-- The whole life of a session. When it ends, the statistics of the micro flows may be others.
unfoldable pub life :
    DpiContext
    → List MicroFlowStats
    → MicroFlowConf
    → Created
    → List Event
    → Session
    → Observed
    → Option Ended
unfolding run_events
life context stats config c es m o = do
  (reports, last) ← run_events context c es (create_session c)
  ended ← ending_session_handler (record context { micro_reports = some (config, stats) }) m o last
  some (record ended { reports = reports ++ ended.reports })

-- The counters of the library are a function of the number of packets.
abbrev pub IsCounted : (ℕ → Counters) → Observed → Type 0
IsCounted f o = o.counters ≡ f (total_of o.counters.packets)

-- The counters that the library gave before the end are not above those at the end, and no further web
-- request comes.
abbrev pub AllBefore : (ℕ → Counters) → Session → List Event → Type 0
AllBefore f m [] = Unit {0}
AllBefore f m (packet i p ∷ es) = AllBefore f m es
AllBefore f m (period m' o ∷ es) =
    IsCounted f o
    × (m'.byte_count ≤ m.byte_count)
    × (m'.packet_count ≤ m.packet_count)
    × AllBefore f m es
AllBefore f m (request ts val o ∷ es) = ⊥

remembered-note_times : (p : Packet) (s : SessionStat) → remembered (note_times p s) ≡ remembered s
unfolding note_times
remembered-note_times p s = ground arith

remembered-measure :
    (p : Packet) (n : Numbers) (s : SessionStat) → remembered (measure p n s) ≡ remembered s
unfolding measure
remembered-measure p n s = ground arith

pub remembered-receiving :
    (base : RttBase) (i : Option ℕ) (p : Packet) (s : SessionStat)
    → remembered (on_receiving_packet base i p s) ≡ remembered s
unfolding on_receiving_packet
remembered-receiving base none p s = refl
remembered-receiving base (some i) p s =
    remembered-note_times p _ ∙ remembered-measure p (numbers_of base p) (note_retransmission p s)

pub sum_of-append :
    (k : Kind) (p : Part) (a b : List Report) → sum_of k p (a ++ b) ≡ sum_of k p a + sum_of k p b
sum_of-append k p [] b = omega arith
sum_of-append k p (r ∷ a) b = omega (arith, sum_of-append k p a b)

-- what one report adds, and what it remembers
pub record Told (o : Observed) (s : SessionStat) : Type 0 where
  pub sums :
      (k : Kind) (p : Part)
      → (sum_of k p (reported o s).0 + part_of p (counted k (remembered s))) % 2 ^ 64
        ≡ part_of p (counted k o.counters) % 2 ^ 64
  pub keeps : remembered (reported o s).1 ≡ o.counters

pub reported-Told :
    (f : ℕ → Counters) (o : Observed) (s : SessionStat)
    → IsCounted f o
    → remembered s ≡ f (total_of s.packets)
    → Told o s
unfolding reported print_ip_session_report after_report
reported-Told f o s h k = elim (Bool-cases (total_of o.counters.packets == total_of s.packets)) [
  | inl e ↦
      let same : o.counters ≡ remembered s = h ∙ ap f ((==_iff _ _).0 e) ∙ sym k in
      record { sums = λ kind part. rw (e, same) (omega arith); keeps = rw e (sym same) }
  | inr e ↦ record {
    sums = λ kind part. rw e (omega (arith, figure-report_of kind part o s));
    keeps = rw e refl;
  }
]
