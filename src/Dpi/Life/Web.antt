-- ===== src/Dpi/Life/Web.antt =====
-- The requests of a web session, `_web_method_handle` of
-- src/modules/dpi/report/session_report_web.c, with the report of the transaction before.
use mmt_probe.Base.{List, [], Option, none, some, if◌then◌else◌, ◌>>=◌}
use mmt_probe.Base.Bytes.{Bytes}
use mmt_probe.Report.Rtt.{Timeval}
use mmt_probe.Report.Apps.{
  WebStat, reset_web, app_web, App, web, ssl, rtp, gtp, get_packet_session, begin_request, is_empty,
}
use mmt_probe.Report.Session.{SessionStat, Observed, Report}
use mmt_probe.Dpi.Life.{reported}

-- the object behind `apps.web`
abbrev pub web_object : Option App → Option WebStat
web_object none = none
web_object (some (web w)) = some w
web_object (some (ssl h)) = none
web_object (some (rtp r)) = none
web_object (some (gtp g)) = none

abbrev pub with_web : WebStat → SessionStat → SessionStat
with_web w s = record s { app = record s.app { apps = some (web w) } }

-- a further request while there is a host name: "report the old HTTP request-response"
unfoldable pub next_request :
    Timeval → Option Bytes → Observed → WebStat → SessionStat → List Report × SessionStat
unfolding reported
next_request ts val o w s =
    let (reports, s') = reported o s in
    if is_empty w.hostname
    then ([], with_web (begin_request ts val w) s)
    else (reports, with_web (begin_request ts val reset_web) s')

-- `_web_method_handle` on the statistics of a session
unfoldable pub web_method :
    Timeval → Option Bytes → Observed → SessionStat → Option (List Report × SessionStat)
unfolding next_request
web_method ts val o s = do
  app ← get_packet_session app_web (web reset_web) s.app
  w ← web_object app.apps
  some (next_request ts val o w (record s { app = app }))
