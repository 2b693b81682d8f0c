-- ===== src/Report/MicroFlow.antt =====
-- `src/modules/dpi/report/micro_flow_report.c` and its header: the statistics of short flows, one
-- entry for each application. What the accessors of the DPI library say of a session is an
-- argument, and a report is the entry it prints.
pub mod Conserve
pub mod Counts
use mmt_probe.Base.{
  ℕ, ◌+◌, Bool, ◌||◌, List, [], ◌∷◌, ltb, leb, if◌then◌else◌, replicate, get_or, set,
}
use mmt_probe.Base.Words.{add32}
use mmt_probe.Report.Rtt.{Timeval}

-- `micro_flow_conf_t`
pub record MicroFlowConf : Type 0 where
  pub packet_threshold : ℕ
  pub byte_threshold : ℕ
  pub report_packets_count : ℕ
  pub report_bytes_count : ℕ
  pub report_flows_count : ℕ

-- what the DPI library says of a session
pub record Session : Type 0 where
  pub proto_id : ℕ
  pub byte_count : ℕ
  pub packet_count : ℕ
  pub dl_packet_count : ℕ
  pub ul_packet_count : ℕ
  pub dl_byte_count : ℕ
  pub ul_byte_count : ℕ
  pub last_activity_time : Timeval

-- `micro_flow_stats_t`
pub record MicroFlowStats : Type 0 where
  pub last_time : Timeval
  pub application_id : ℕ
  pub flows_nb : ℕ
  pub dl_pcount : ℕ
  pub ul_pcount : ℕ
  pub dl_bcount : ℕ
  pub ul_bcount : ℕ

-- an entry of the zeroed memory
abbrev pub no_flows : MicroFlowStats
no_flows = record {
  last_time = record { tv_sec = 0; tv_usec = 0 };
  application_id = 0;
  flows_nb = 0;
  dl_pcount = 0;
  ul_pcount = 0;
  dl_bcount = 0;
  ul_bcount = 0;
}

-- `micro_flow_report_alloc_init`, of an enabled report: `PROTO_MAX_IDENTIFIER` entries
abbrev pub micro_flow_report_alloc_init : ℕ → List MicroFlowStats
micro_flow_report_alloc_init proto_max = replicate proto_max no_flows

abbrev pub is_micro_flow : MicroFlowConf → Session → Bool
is_micro_flow config s =
    leb s.byte_count config.byte_threshold || leb s.packet_count config.packet_threshold

-- "update statistic", in `uint32_t`
pub count_session : MicroFlowStats → Session → MicroFlowStats
count_session stat s = record {
  last_time = s.last_activity_time;
  application_id = stat.application_id;
  flows_nb = add32 stat.flows_nb 1;
  dl_pcount = add32 stat.dl_pcount s.dl_packet_count;
  ul_pcount = add32 stat.ul_pcount s.ul_packet_count;
  dl_bcount = add32 stat.dl_bcount s.dl_byte_count;
  ul_bcount = add32 stat.ul_bcount s.ul_byte_count;
}

-- "if the statistic is bigger than some limit?"
pub is_over : MicroFlowConf → MicroFlowStats → Bool
is_over config stat =
    ltb config.report_bytes_count (add32 stat.dl_bcount stat.ul_bcount)
    || ltb config.report_packets_count (add32 stat.dl_pcount stat.dl_pcount)
    || ltb config.report_flows_count stat.flows_nb

-- "reset its data"
pub reset : MicroFlowStats → MicroFlowStats
reset stat = record {
  last_time = stat.last_time;
  application_id = stat.application_id;
  flows_nb = 0;
  dl_pcount = 0;
  ul_pcount = 0;
  dl_bcount = 0;
  ul_bcount = 0;
}

-- `micro_flow_report__update` on one entry: the reports printed and the entry.
pub update_stat : MicroFlowConf → MicroFlowStats → Session → List MicroFlowStats × MicroFlowStats
update_stat config stat s =
    let counted = count_session stat s in
    if is_over config counted then (counted ∷ [], reset counted) else ([], counted)

-- `micro_flow_report__update`
pub micro_flow_report__update :
    MicroFlowConf → List MicroFlowStats → Session → List MicroFlowStats × List MicroFlowStats
micro_flow_report__update config stats s =
    let (reports, stat) = update_stat config (get_or stats s.proto_id no_flows) s in
    (reports, set stats s.proto_id stat)

-- `micro_flow_report_release`: "report the rest"
pub micro_flow_report_release : List MicroFlowStats → List MicroFlowStats
micro_flow_report_release [] = []
micro_flow_report_release (stat ∷ stats) =
    let rest = micro_flow_report_release stats in if ltb 0 stat.flows_nb then stat ∷ rest else rest
