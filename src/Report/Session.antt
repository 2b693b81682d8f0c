-- ===== src/Report/Session.antt =====
-- The statistics and the report of a session, src/modules/dpi/report/session_report.c, built with
-- QOS_MODULE and without SIMPLE_REPORT. What the DPI library says of a session and of a packet is an
-- argument. Report.Session.Message makes the text of a report.
pub mod Latency
pub mod Message
pub mod Figures
pub mod RoundTrips
use mmt_probe.Base.{
  ℕ, zero, suc, ◌+◌, ◌-◌, ◌*◌, ◌%◌, ◌^◌, Bool, true, false, not, ◌||◌, ◌&&◌, List, [], ◌∷◌, Option,
  none, some, length, get_or, drop, ltb, leb, ◌==◌, if◌then◌else◌,
}
use mmt_probe.Base.Bytes.{Bytes}
use mmt_probe.Base.Words.{add32, add64, sub64}
use mmt_probe.Report.Rtt.{
  Timeval, TcpRtt, Direction, uplink, downlink, other, tcp_rtt_init, tcp_rtt_add_packet, Added,
  u_second_diff,
}
use mmt_probe.Report.Apps.{AppState, no_app, zero_time}

-- `flow_stat_data_t`, and the arrays of one number for each direction
pub record FlowStat : Type 0 where
  pub upload : ℕ
  pub download : ℕ

abbrev pub no_flow : FlowStat
no_flow = record { upload = 0; download = 0 }

abbrev pub at : FlowStat → Direction → ℕ
at f uplink = f.upload
at f downlink = f.download

abbrev pub set_at : FlowStat → Direction → ℕ → FlowStat
set_at f uplink n = record f { upload = n }
set_at f downlink n = record f { download = n }

-- `rtt` of `session_stat_t`
pub record RttStat : Type 0 where
  pub sum : FlowStat
  pub max_of : FlowStat
  pub min_of : FlowStat
  pub counter : FlowStat

abbrev pub no_rtt : RttStat
no_rtt = record { sum = no_flow; max_of = no_flow; min_of = no_flow; counter = no_flow }

-- `session_stat_t`; an address is the text of `ip_string`.
pub record SessionStat : Type 0 where
  pub ip_src : Bytes
  pub ip_dst : Bytes
  pub port_src : ℕ
  pub port_dst : ℕ
  pub mac_src : Bytes
  pub mac_dst : Bytes
  pub volumes : FlowStat
  pub payload : FlowStat
  pub packets : FlowStat
  pub app : AppState
  pub rtt : RttStat
  pub tcp_rtt : TcpRtt
  pub retransmission : FlowStat
  pub tcp_established_ts : Timeval
  pub latest_tcp_data_pkt_ts : Timeval
  pub is_printed_handshake_time : Bool
  pub is_printed_app_response_time : Bool

-- What `get_attribute_extracted_data` gives of the first packet of a session: addresses as they are
-- printed, in the memory of zeros where there is no data.
pub record Addresses : Type 0 where
  pub mac_source : Bytes
  pub mac_target : Bytes
  pub ip_source : Bytes
  pub ip_target : Bytes
  pub client_port : Option ℕ
  pub server_port : Option ℕ

abbrev pub or_zero : Option ℕ → ℕ
or_zero none = 0
or_zero (some v) = v

-- `session_report_callback_on_starting_session`, of a packet with a session: NULL where the session
-- is neither on top of IP nor of IPv6
unfoldable pub on_starting_session : Bool → Addresses → Option SessionStat
on_starting_session is_over_ip a =
    if is_over_ip
    then some (record {
      ip_src = a.ip_source;
      ip_dst = a.ip_target;
      port_src = or_zero a.client_port;
      port_dst = or_zero a.server_port;
      mac_src = a.mac_source;
      mac_dst = a.mac_target;
      volumes = no_flow;
      payload = no_flow;
      packets = no_flow;
      app = no_app;
      rtt = no_rtt;
      tcp_rtt = tcp_rtt_init;
      retransmission = no_flow;
      tcp_established_ts = zero_time;
      latest_tcp_data_pkt_ts = zero_time;
      is_printed_handshake_time = false;
      is_printed_app_response_time = false;
    })
    else none

-- the loop of `_get_protocol_index_after_session` from an index on; `none` is -1.
pub protocol_index_from : ℕ → List ℕ → ℕ → Option ℕ
protocol_index_from proto_id [] index = none
protocol_index_from proto_id (p ∷ path) index =
    let rest = protocol_index_from proto_id path (index + 1) in
    if p == proto_id then some index else rest

-- `_get_protocol_index_after_session`
abbrev pub get_protocol_index_after_session : ℕ → ℕ → List ℕ → Option ℕ
get_protocol_index_after_session proto_id session_index path =
    protocol_index_from proto_id (drop session_index path) session_index

-- `conf_rtt_base_t`
pub data RttBase : Type 0 where
  sender captor prefer_sender : RttBase

-- What is used of a packet, with the attributes of its TCP: `none` where an attribute has no data.
pub record Packet : Type 0 where
  pub direction : Direction
  pub ts : Timeval
  pub retransmission : Option ℕ
  pub tsval : Option ℕ
  pub tsecr : Option ℕ
  pub ack_nb : Option ℕ
  pub seq_nb : Option ℕ
  pub payload_len : Option ℕ
  pub conn_established : Bool

abbrev pub is_zero_timestamp : Timeval → Bool
is_zero_timestamp ts = ts.tv_sec == 0 && ts.tv_usec == 0

abbrev pub is_after : Timeval → Timeval → Bool
is_after start end =
    ltb start.tv_sec end.tv_sec || (end.tv_sec == start.tv_sec && ltb start.tv_usec end.tv_usec)

-- The numbers that the round trip is measured by.
pub record Numbers : Type 0 where
  pub ack_number : ℕ
  pub seq_number : ℕ
  pub data_len : ℕ

abbrev pub keep_or : Bool → Option ℕ → ℕ → ℕ
keep_or overwrites none old = old
keep_or overwrites (some v) old = if overwrites || old == 0 then v else old

-- by the timestamps of the sender
abbrev pub sender_ack : Option ℕ → ℕ
sender_ack none = 0
sender_ack (some tsecr) = add32 tsecr 1

unfoldable pub numbers_of : RttBase → Packet → Numbers
numbers_of sender p = record {
  ack_number = sender_ack p.tsecr;
  seq_number = or_zero p.tsval;
  data_len = 0;
}
numbers_of captor p = record {
  ack_number = keep_or true p.ack_nb 0;
  seq_number = keep_or true p.seq_nb 0;
  data_len = or_zero p.payload_len;
}
numbers_of prefer_sender p = record {
  ack_number = keep_or false p.ack_nb (sender_ack p.tsecr);
  seq_number = keep_or false p.seq_nb (or_zero p.tsval);
  data_len = 0;
}

-- what a measured round trip, acknowledging `counter` segments, makes of the sums
unfoldable pub record_rtt : Direction → ℕ → ℕ → RttStat → RttStat
record_rtt dir counter usec r = record {
  sum = set_at r.sum dir (add64 (at r.sum dir) (usec * counter));
  max_of = if ltb (at r.max_of dir) usec then set_at r.max_of dir usec else r.max_of;
  min_of =
      if at r.min_of dir == 0 || ltb usec (at r.min_of dir)
      then set_at r.min_of dir usec
      else r.min_of;
  counter = set_at r.counter dir (add64 (at r.counter dir) counter);
}

-- the call of `tcp_rtt_add_packet`, whose `data_len` is a `uint16_t`, and what follows it
unfoldable pub measure : Packet → Numbers → SessionStat → SessionStat
measure p n s =
    let added =
      tcp_rtt_add_packet s.tcp_rtt p.direction n.ack_number n.seq_number (n.data_len % 2 ^ 16)
        p.ts in
    if not (n.ack_number == 0) && not (n.seq_number == 0)
    then record s {
      tcp_rtt = added.rtt;
      rtt =
          if added.counter == 0
          then s.rtt
          else record_rtt (other p.direction) added.counter (or_zero added.usec) s.rtt;
    }
    else s

-- the moments that the other times are measured from
unfoldable pub note_times : Packet → SessionStat → SessionStat
note_times p s =
    if is_zero_timestamp s.tcp_established_ts
    then (if p.conn_established then record s { tcp_established_ts = p.ts } else s)
    else if is_zero_timestamp s.latest_tcp_data_pkt_ts
    then (if is_after s.tcp_established_ts p.ts
        then record s { latest_tcp_data_pkt_ts = p.ts }
        else s)
    else s

abbrev pub note_retransmission : Packet → SessionStat → SessionStat
note_retransmission p s = record s {
  retransmission =
      set_at s.retransmission p.direction
        (add64 (at s.retransmission p.direction) (or_zero p.retransmission));
}

-- `session_report_callback_on_receiving_packet`: with the index of TCP behind the session, or without
unfoldable pub on_receiving_packet : RttBase → Option ℕ → Packet → SessionStat → SessionStat
on_receiving_packet base none p s = s
on_receiving_packet base (some proto_index) p s =
    note_times p (measure p (numbers_of base p) (note_retransmission p s))

-- The counters of a session in the DPI library, `uint64_t` each.
pub record Counters : Type 0 where
  pub packets : FlowStat
  pub volumes : FlowStat
  pub payload : FlowStat

-- What the library says of a session when it is reported.
pub record Observed : Type 0 where
  pub counters : Counters
  pub proto_path : List ℕ
  pub path_ul : List ℕ
  pub path_dl : List ℕ
  pub last_activity_time : Timeval
  pub init_time : Timeval
  pub session_rtt : Timeval
  pub active_session_count : ℕ
  pub session_id : ℕ
  pub application_class : ℕ
  pub has_cdn : Bool

abbrev pub total_of : FlowStat → ℕ
total_of f = add64 f.upload f.download

-- the three times of a report
pub record Times : Type 0 where
  pub handshake_time : ℕ
  pub app_response_time : ℕ
  pub data_transfer_time : ℕ

-- `u_second`, as the `uint64_t` that it is stored in
abbrev pub u_second : Timeval → ℕ
u_second ts = (ts.tv_sec * 1000000 + ts.tv_usec) % 2 ^ 64

-- "calculate data only when TCP session has been established"
unfoldable pub times_of : Observed → SessionStat → Times
times_of o s =
    let established = not (is_zero_timestamp s.tcp_established_ts) in
    let has_data = established && not (is_zero_timestamp s.latest_tcp_data_pkt_ts) in
    record {
      handshake_time =
          if established && not s.is_printed_handshake_time then u_second o.session_rtt else 0;
      app_response_time =
          if has_data && not s.is_printed_app_response_time
          then u_second_diff s.latest_tcp_data_pkt_ts s.tcp_established_ts
          else 0;
      data_transfer_time =
          if has_data && is_after s.latest_tcp_data_pkt_ts o.last_activity_time
          then u_second_diff o.last_activity_time s.latest_tcp_data_pkt_ts
          else 0;
    }

-- what the same block assigns
unfoldable pub mark_times : Observed → SessionStat → SessionStat
mark_times o s =
    let established = not (is_zero_timestamp s.tcp_established_ts) in
    let has_data = established && not (is_zero_timestamp s.latest_tcp_data_pkt_ts) in
    record s {
      is_printed_handshake_time = established || s.is_printed_handshake_time;
      is_printed_app_response_time = has_data || s.is_printed_app_response_time;
      latest_tcp_data_pkt_ts =
          if has_data && is_after s.latest_tcp_data_pkt_ts o.last_activity_time
          then o.last_activity_time
          else s.latest_tcp_data_pkt_ts;
    }

-- the differences of a report: in total, up and down
pub record Difference : Type 0 where
  pub total : ℕ
  pub up : ℕ
  pub down : ℕ

unfoldable pub difference : FlowStat → FlowStat → Difference
difference now before = record {
  total = sub64 (total_of now) (total_of before);
  up = sub64 now.upload before.upload;
  down = sub64 now.download before.download;
}

-- A report: the statistics before it, what the library said, and what is computed of both.
pub record Report : Type 0 where
  pub stat : SessionStat
  pub observed : Observed
  pub volumes : Difference
  pub payload : Difference
  pub packets : Difference
  pub times : Times

-- "remember the current statistics", and the reset of what is measured between two reports
unfoldable pub remember : Counters → SessionStat → SessionStat
remember c s = record s {
  volumes = c.volumes;
  payload = c.payload;
  packets = c.packets;
  rtt = no_rtt;
  retransmission = no_flow;
}

unfoldable pub report_of : Observed → SessionStat → Report
report_of o s = record {
  stat = s;
  observed = o;
  volumes = difference o.counters.volumes s.volumes;
  payload = difference o.counters.payload s.payload;
  packets = difference o.counters.packets s.packets;
  times = times_of o s;
}

unfoldable pub after_report : (AppState → AppState) → Observed → SessionStat → SessionStat
unfolding mark_times remember
after_report printed o s = remember o.counters (record (mark_times o s) { app = printed s.app })

-- `_print_ip_session_report` up to the text: nothing without a packet since the last report. The
-- application's statistics after their part of the report is printed are an argument.
unfoldable pub print_ip_session_report :
    (AppState → AppState) → Observed → SessionStat → Option Report × SessionStat
print_ip_session_report printed o s =
    if total_of o.counters.packets == total_of s.packets
    then (none, s)
    else (some (report_of o s), after_report printed o s)
