-- ===== src/Tests/Session.antt =====
-- A session of `src/modules/dpi/report/session_report.c` with a few packets and two reports, and the
-- dump of packets.
use mmt_probe.Base.{
  ◌⊎◌, ℕ, ◌+◌, ◌%◌, ◌^◌, ◌≤◌, ◌≡◌, refl, true, false, List, [], ◌∷◌, none, some, replicate, arith,
}
use mmt_probe.Base.Bytes.{Bytes, codes}
use mmt_probe.Report.Rtt.{
  uplink, downlink, tcp_rtt_init, tcp_rtt_add_packet, acknowledge, insert, remove_acked, is_older,
  expected_ack,
}
use mmt_probe.Report.Apps.{
  no_app, zero_time, AppState, new_gtp, reset_web, app_web, web, dpi_copy_string_value,
}
use mmt_probe.Report.Apps.Teids.{collect, collect-first_six}
use mmt_probe.Report.Session.{
  no_flow, at, no_rtt, SessionStat, Addresses, on_starting_session, Packet, captor, numbers_of,
  record_rtt, measure, note_times, on_receiving_packet, Observed,
}
use mmt_probe.Report.Session.Figures.{
  of_volumes, in_total, do_reports, no_counters, IsSteady, sum_of, do_reports-conserve,
}
use mmt_probe.Report.Session.{Report, Difference}
use mmt_probe.Report.Session.Message.{Context}
use mmt_probe.Report.Session.Message.Columns.{basic_columns}
use mmt_probe.Text.Builder.{Element}
use mmt_probe.Report.Session.Latency.{
  handshake, app_response, data_transfer, Once, times_sum, transferred, do_reports-times,
}
use mmt_probe.Report.Session.RoundTrips.{div, begins, receives, average-between, History}

abbrev pub from_port : Addresses
from_port = record {
  mac_source = [];
  mac_target = [];
  ip_source = codes "10.0.0.1";
  ip_target = codes "10.0.0.2";
  client_port = some 1234;
  server_port = some 80;
}

abbrev new_session : SessionStat
new_session = record {
  ip_src = codes "10.0.0.1";
  ip_dst = codes "10.0.0.2";
  port_src = 1234;
  port_dst = 80;
  mac_src = [];
  mac_dst = [];
  volumes = no_flow;
  payload = no_flow;
  packets = no_flow;
  app = no_app;
  rtt = no_rtt;
  tcp_rtt = tcp_rtt_init;
  retransmission = no_flow;
  tcp_established_ts = zero_time;
  latest_tcp_data_pkt_ts = zero_time;
  is_printed_handshake_time = false;
  is_printed_app_response_time = false;
}

starts : on_starting_session true from_port ≡ some new_session
unfolding on_starting_session
starts = refl

abbrev same : AppState → AppState
same s = s

abbrev pub seen : ℕ → ℕ → ℕ → Observed
seen packets bytes moment = record {
  counters = record {
    packets = record { upload = packets; download = 1 };
    volumes = record { upload = bytes; download = 60 };
    payload = record { upload = 0; download = 0 };
  };
  proto_path = 99 ∷ 178 ∷ 354 ∷ [];
  path_ul = 99 ∷ 178 ∷ 354 ∷ [];
  path_dl = 99 ∷ 178 ∷ [];
  last_activity_time = record { tv_sec = moment; tv_usec = 0 };
  init_time = zero_time;
  session_rtt = zero_time;
  active_session_count = 1;
  session_id = 7;
  application_class = 0;
  has_cdn = false;
}

abbrev two_reports : List Observed
two_reports = seen 2 100 5 ∷ seen 5 900 9 ∷ []

steady : IsSteady no_counters two_reports
steady = ((λ e. absurd (omega arith)), ((λ e. absurd (omega arith)), tt))

do_reports-conserve_example :
    sum_of of_volumes in_total (do_reports same two_reports new_session).0 % 2 ^ 64 ≡ 960 % 2 ^ 64
do_reports-conserve_example =
    do_reports-conserve same of_volumes in_total from_port two_reports new_session starts steady

do_reports-times_example :
    ((times_sum data_transfer (do_reports same two_reports new_session).0 + transferred new_session)
        % 2 ^ 64
      ≡ transferred (do_reports same two_reports new_session).1 % 2 ^ 64)
    × ((new_session.is_printed_handshake_time ≡ false)
        ⊎ (times_sum handshake (do_reports same two_reports new_session).0 ≡ 0))
    × ((new_session.is_printed_app_response_time ≡ false)
        ⊎ (times_sum app_response (do_reports same two_reports new_session).0 ≡ 0))
    × Once handshake (do_reports same two_reports new_session).0
    × Once app_response (do_reports same two_reports new_session).0
do_reports-times_example = do_reports-times same two_reports new_session

abbrev pub request : Packet
request = record {
  direction = uplink;
  ts = record { tv_sec = 3; tv_usec = 900000 };
  retransmission = none;
  tsval = none;
  tsecr = none;
  ack_nb = some 5;
  seq_nb = some 1000;
  payload_len = some 20;
  conn_established = false;
}

abbrev pub answer : Packet
answer = record {
  direction = downlink;
  ts = record { tv_sec = 4; tv_usec = 100 };
  retransmission = none;
  tsval = none;
  tsecr = none;
  ack_nb = some 1021;
  seq_nb = some 7;
  payload_len = some 0;
  conn_established = false;
}

abbrev asked : SessionStat
asked = on_receiving_packet captor (some 3) request new_session

abbrev answered : SessionStat
answered = on_receiving_packet captor (some 3) answer asked

answered-History : History captor same answered
unfolding on_receiving_packet measure numbers_of note_times tcp_rtt_add_packet acknowledge insert
    remove_acked is_older expected_ack record_rtt
answered-History =
    receives asked (some 3) answer
      (receives new_session (some 3) request (begins from_port new_session starts)
        (λ ne. absurd (ne refl)))
      (λ ne. (omega arith, (omega arith, omega arith)))

counted_one : at answered.rtt.counter uplink ≡ 1
unfolding on_receiving_packet measure numbers_of note_times tcp_rtt_add_packet acknowledge insert
    remove_acked is_older expected_ack record_rtt
counted_one = refl

average-between_example :
    (at answered.rtt.min_of uplink
      ≤ div (at answered.rtt.sum uplink) (at answered.rtt.counter uplink))
    × (div (at answered.rtt.sum uplink) (at answered.rtt.counter uplink)
        ≤ at answered.rtt.max_of uplink)
average-between_example = average-between uplink answered-History (omega (arith, counted_one))

abbrev copied_name : Bytes
copied_name = dpi_copy_string_value 8 (some (codes "a\"b\nlong name"))

abbrev tunnels : List ℕ
tunnels = 11 ∷ 12 ∷ 11 ∷ 13 ∷ 14 ∷ 15 ∷ 16 ∷ 17 ∷ []

collect-first_six_example :
    ((collect tunnels new_gtp).0.teids ≡ 11 ∷ 12 ∷ 13 ∷ 14 ∷ 15 ∷ 16 ∷ [])
    × ((collect tunnels new_gtp).1
        ≡ false ∷ false ∷ false ∷ false ∷ false ∷ false ∷ false ∷ true ∷ [])
collect-first_six_example = collect-first_six tunnels (omega arith)

abbrev moved : Difference
moved = record { total = 160; up = 100; down = 60 }

abbrev of_web : Report
of_web = record {
  stat = record new_session {
    app = record { app_type = app_web; apps = some (web reset_web); content_class = 0 };
  };
  observed = seen 2 100 5;
  volumes = moved;
  payload = moved;
  packets = moved;
  times = record { handshake_time = 0; app_response_time = 0; data_transfer_time = 0 };
}

abbrev memory : Bytes
memory = replicate 3000 0

abbrev path_memory : Bytes
path_memory = replicate 128 0

abbrev first_period : Context
first_period = record { behind_path = 0; stat_periods_index = 1; worker_index = 0 }

abbrev basic : List Element
basic = basic_columns first_period of_web
