-- ===== src/Dpi/Life.antt =====
-- The life of a session in src/modules/dpi/dpi.c, with STAT_REPORT and PCAP_DUMP_MODULE and without
-- SIMPLE_REPORT and HTTP_RECONSTRUCT_MODULE: its packets, its periodic reports and its end. What the
-- DPI library says of a session, and whether a session is known to it, are arguments. A result `none`
-- is an access through the NULL that a session not on top of IP has for its statistics.
pub mod Account
pub mod Events
pub mod Requests
pub mod Web
use mmt_probe.Base.{
  ℕ, Bool, true, false, not, ◌&&◌, List, [], ◌∷◌, ◌++◌, Option, none, some, if◌then◌else◌, ◌>>=◌,
}
use mmt_probe.Base.Bytes.{Bytes}
use mmt_probe.Report.MicroFlow.{
  MicroFlowConf, Session, MicroFlowStats, is_micro_flow, micro_flow_report__update,
}
use mmt_probe.Report.Session.{
  SessionStat, Addresses, on_starting_session, RttBase, Packet, on_receiving_packet, Observed,
  Report, print_ip_session_report,
}
use mmt_probe.Report.Session.Message.{after_print}
use mmt_probe.Dpi.Dump.{Captured, Dump, on_packet}

-- `packet_session_t`, what the probe attaches to a session of the library
pub record PacketSession : Type 0 where
  pub session_id : ℕ
  pub session_stat : Option SessionStat

-- what is used of `dpi_context_t` and of its configuration
pub record DpiContext : Type 0 where
  pub micro_reports : Option (MicroFlowConf × List MicroFlowStats)
  pub is_enable : Bool
  pub rtt_base : RttBase
  pub pcap_dump : Option Dump

-- What `_create_session` is called with: the number of the session, whether it is on top of IP or
-- IPv6, and its addresses.
pub record Created : Type 0 where
  pub id : ℕ
  pub is_over_ip : Bool
  pub addresses : Addresses

pub create_session : Created → PacketSession
create_session c = record {
  session_id = c.id;
  session_stat = on_starting_session c.is_over_ip c.addresses;
}

-- `_starting_session_handler`
pub starting_session_handler : Created → Option PacketSession → PacketSession
unfolding create_session
starting_session_handler c none = create_session c
starting_session_handler c (some session) = session

-- `session_report_callback_on_receiving_packet` on the pointer
pub receive_into : RttBase → Option ℕ → Packet → Option SessionStat → Option (Option SessionStat)
receive_into base proto_index p (some s) = some (some (on_receiving_packet base proto_index p s))
receive_into base none p none = some none
receive_into base (some i) p none = none

abbrev pub with_stat : Option SessionStat → PacketSession → PacketSession
with_stat stat session = record session { session_stat = stat }

-- the part of `_packet_handler` for a packet of a session
pub session_packet :
    DpiContext → Created → Option ℕ → Packet → Option PacketSession → Option PacketSession
unfolding starting_session_handler receive_into
session_packet context c proto_index p attached =
    let session = starting_session_handler c attached in
    if context.is_enable
    then (do
      stat ← receive_into context.rtt_base proto_index p session.session_stat
      some (with_stat stat session))
    else some session

-- the part of `_packet_handler` that every packet takes; `opens` says whether a file can be opened.
pub dump_packet : (ℕ → Bytes) → Bool → Captured → DpiContext → DpiContext
dump_packet path_of opens captured context = elim context.pcap_dump [
  | none ↦ context
  | some d ↦ record context { pcap_dump = some (on_packet path_of opens captured d) }
]

-- "need to check if a flow is micro"
abbrev pub is_micro : Option (MicroFlowConf × List MicroFlowStats) → Session → Bool
is_micro none m = false
is_micro (some (config, stats)) m = is_micro_flow config m

abbrev pub reports_of : Option Report → List Report
reports_of none = []
reports_of (some r) = r ∷ []

-- `session_report_do_report`: the report that is written, if any
pub reported : Observed → SessionStat → List Report × SessionStat
reported o s = let (report, s') = print_ip_session_report after_print o s in (reports_of report, s')

-- `_period_session_report`
pub period_session_report :
    DpiContext → Session → Observed → PacketSession → List Report × PacketSession
unfolding reported
period_session_report context m o session = elim session.session_stat [
  | none ↦ ([], session)
  | some s ↦
      let (reports, s') = reported o s in
      if is_micro context.micro_reports m
      then ([], session)
      else (reports, with_stat (some s') session)
]

-- What the end of a session writes and leaves: reports of the session and of micro flows, and the
-- statistics of micro flows.
pub record Ended : Type 0 where
  pub reports : List Report
  pub micro_printed : List MicroFlowStats
  pub micro_reports : Option (MicroFlowConf × List MicroFlowStats)

-- the report at the end
pub last_report : Observed → Option SessionStat → Option (List Report)
unfolding reported
last_report o none = none
last_report o (some s) = some (reported o s).0

-- "a session statistic is processed as either micro-flow or normal-flow"
pub count_micro :
    Session
    → Option (MicroFlowConf × List MicroFlowStats)
    → List MicroFlowStats × Option (MicroFlowConf × List MicroFlowStats)
count_micro m none = ([], none)
count_micro m (some (config, stats)) =
    let (printed, stats') = micro_flow_report__update config stats m in
    if is_micro_flow config m then (printed, some (config, stats')) else ([], some (config, stats))

-- `_ending_session_handler`
pub ending_session_handler : DpiContext → Session → Observed → PacketSession → Option Ended
unfolding count_micro last_report
ending_session_handler context m o session =
    let (printed, micro') = count_micro m context.micro_reports in
    do
      reports ←
          if context.is_enable && not (is_micro context.micro_reports m)
          then last_report o session.session_stat
          else some []
      some (record { reports = reports; micro_printed = printed; micro_reports = micro' })
