-- ===== src/Dpi/Life/Requests.antt =====
-- How src/modules/dpi/dpi.c accounts for a session with a further web request.
use mmt_probe.Base.{ℕ, ◌≡◌, ◌≢◌, refl, true, false, List, [], ◌∷◌, Option, some, ◌==◌, arith}
use mmt_probe.Base.Bytes.{Bytes}
use mmt_probe.Report.Rtt.{Timeval}
use mmt_probe.Report.Apps.{
  WebStat, reset_web, app_web, web, get_packet_session, begin_request, is_empty,
}
use mmt_probe.Report.MicroFlow.{
  MicroFlowConf, Session, MicroFlowStats, is_micro_flow, micro_flow_report__update,
}
use mmt_probe.Report.Session.{
  SessionStat, RttBase, Observed, total_of, print_ip_session_report, report_of, after_report,
}
use mmt_probe.Report.Session.Message.{after_print}
use mmt_probe.Dpi.Dump.{Dump}
use mmt_probe.Dpi.Life.{reported, ending_session_handler, count_micro}
use mmt_probe.Dpi.Life.Web.{with_web, next_request, web_method}
use mmt_probe.Dpi.Life.Events.{reporting}

-- A session that has a web transaction with a host name, and packets since its last report: the next
-- request reports it; and where it is micro at its end, it is one more flow in the
-- micro flows as well.
pub request-counted_twice :
    (config : MicroFlowConf) (stats : List MicroFlowStats) (base : RttBase) (dump : Option Dump)
    (ts : Timeval) (val : Option Bytes) (o last : Observed) (m : Session) (s : SessionStat)
    (w : WebStat) (id : ℕ)
    → s.app.app_type ≡ app_web
    → s.app.apps ≡ some (web w)
    → is_empty w.hostname ≡ false
    → total_of o.counters.packets ≢ total_of s.packets
    → is_micro_flow config m ≡ true
    → let after = with_web (begin_request ts val reset_web) (after_report after_print o s) in
      (web_method ts val o s ≡ some (report_of o s ∷ [], after))
      × (ending_session_handler
            (reporting config stats base dump)
            m
            last
            (record { session_id = id; session_stat = some after })
          ≡ some (record {
            reports = [];
            micro_printed = (micro_flow_report__update config stats m).0;
            micro_reports = some (config, (micro_flow_report__update config stats m).1);
          }))
unfolding web_method next_request reported print_ip_session_report get_packet_session
    ending_session_handler count_micro
request-counted_twice config stats base dump ts val o last m s w id e f named moved micro =
    let news : (total_of o.counters.packets == total_of s.packets) ≡ false = ground arith in
    (rw (e, f, named, news) refl, rw micro refl)
