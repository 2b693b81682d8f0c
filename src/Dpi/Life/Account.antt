-- ===== src/Dpi/Life/Account.antt =====
-- How a session of src/modules/dpi/dpi.c is accounted for, from its first packet to its end.
use mmt_probe.Base.{ℕ, ◌+◌, ◌%◌, ◌^◌, ◌≡◌, true, List, [], Option, some}
use mmt_probe.Report.MicroFlow.{
  MicroFlowConf, Session, MicroFlowStats, is_micro_flow, micro_flow_report__update,
}
use mmt_probe.Report.Session.{SessionStat, RttBase, Counters, Observed, total_of, Report}
use mmt_probe.Report.Session.Figures.{Kind, Part, counted, part_of, sum_of, remembered}
use mmt_probe.Dpi.Dump.{Dump}
use mmt_probe.Dpi.Life.{PacketSession, DpiContext, Created, Ended}
use mmt_probe.Dpi.Life.Events.{Event, reporting, run_events}

module _ (config : MicroFlowConf) (stats0 : List MicroFlowStats) (base : RttBase)
    (dump : Option Dump) (c : Created) (f : ℕ → Counters) (m : Session) where
  abbrev context : DpiContext
  context = reporting config stats0 base dump

  abbrev of_stat : SessionStat → PacketSession
  of_stat s = record { session_id = c.id; session_stat = some s }

  -- What events make of a session.
  record Ran (es : List Event) (s : SessionStat) : Type 0 where
    reports : List Report
    stat : SessionStat
    runs : run_events context c es (of_stat s) ≡ some (reports, of_stat stat)
    sums :
        (k : Kind) (p : Part)
        → (sum_of k p reports + part_of p (counted k (remembered s))) % 2 ^ 64
          ≡ part_of p (counted k (remembered stat)) % 2 ^ 64
    steady : remembered stat ≡ f (total_of stat.packets)
    silent : is_micro_flow config m ≡ true → reports ≡ []

-- What a session of the micro flows leaves: nothing but one more flow there.
abbrev pub CountedOnce : MicroFlowConf → List MicroFlowStats → Session → Option Ended → Type 0
CountedOnce config stats m ended =
    ended
    ≡ some (record {
      reports = [];
      micro_printed = (micro_flow_report__update config stats m).0;
      micro_reports = some (config, (micro_flow_report__update config stats m).1);
    })

-- What another one leaves: reports that add up to its counters, and the micro flows as they were.
abbrev pub ReportedWhole : MicroFlowConf → List MicroFlowStats → Observed → Option Ended → Type 0
ReportedWhole config stats o ended =
    (reports : List Report) × (ended
      ≡ some
          (record { reports = reports; micro_printed = []; micro_reports = some (config, stats) }))
    × ((k : Kind) (p : Part)
        → sum_of k p reports % 2 ^ 64 ≡ part_of p (counted k o.counters) % 2 ^ 64)
