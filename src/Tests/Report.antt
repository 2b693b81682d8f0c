-- ===== src/Tests/Report.antt =====
-- The statistics of `src/modules/dpi/report` on a few packets and sessions.
use mmt_probe.Base.{◌%◌, ◌^◌, ◌≤◌, ◌≡◌, refl, [], ◌∷◌, some, arith}
use mmt_probe.Report.Rtt.{
  Timeval, TcpRtt, uplink, downlink, tcp_rtt_init, insert, pkts, expected_ack, u_second_diff,
  tcp_rtt_add_packet,
}
use mmt_probe.Report.Rtt.Sorted.{packet, start, IsSorted, Reach-IsSorted}
use mmt_probe.Report.Rtt.Acks.{Outcome, tcp_rtt_add_packet_lem}
use mmt_probe.Report.Rtt.Measure.{acknowledged-measures}
use mmt_probe.Report.MicroFlow.{MicroFlowConf, Session, micro_flow_report_alloc_init}
use mmt_probe.Report.MicroFlow.Conserve.{run, dl_bytes, total, run-conserves}

abbrev early : Timeval
early = record { tv_sec = 3; tv_usec = 900000 }

abbrev late : Timeval
late = record { tv_sec = 4; tv_usec = 100 }

abbrev one_packet : TcpRtt
one_packet = (tcp_rtt_add_packet tcp_rtt_init uplink 0 1000 20 early).rtt

Reach-IsSorted_example : IsSorted one_packet
Reach-IsSorted_example = Reach-IsSorted one_packet (packet start uplink 0 1000 20 early)

tcp_rtt_add_packet_lem_example :
    (pkts (tcp_rtt_add_packet one_packet downlink 1021 7 0 late).rtt downlink
      ≡ insert 7 0 late (pkts one_packet downlink))
    × Outcome 1021 late (pkts one_packet uplink) (record {
      usec = (tcp_rtt_add_packet one_packet downlink 1021 7 0 late).usec;
      counter = (tcp_rtt_add_packet one_packet downlink 1021 7 0 late).counter;
      rest = pkts (tcp_rtt_add_packet one_packet downlink 1021 7 0 late).rtt uplink;
    })
tcp_rtt_add_packet_lem_example = tcp_rtt_add_packet_lem one_packet downlink 1021 7 0 late

expected_lem : expected_ack 1000 20 ≡ 1021
unfolding expected_ack
expected_lem = refl

acknowledged-measures_example :
    ((tcp_rtt_add_packet one_packet downlink (expected_ack 1000 20) 7 0 late).usec
      ≡ some (u_second_diff late early))
    × (1 ≤ (tcp_rtt_add_packet one_packet downlink (expected_ack 1000 20) 7 0 late).counter)
acknowledged-measures_example =
    acknowledged-measures tcp_rtt_init uplink 0 1000 20 7 0 early late (omega arith)
      (omega (arith, expected_lem))

abbrev config : MicroFlowConf
config = record {
  packet_threshold = 2;
  byte_threshold = 100;
  report_packets_count = 10;
  report_bytes_count = 1000;
  report_flows_count = 5;
}

abbrev upload : Session
upload = record {
  proto_id = 1;
  byte_count = 60;
  packet_count = 20;
  dl_packet_count = 0;
  ul_packet_count = 20;
  dl_byte_count = 0;
  ul_byte_count = 60;
  last_activity_time = late;
}

abbrev download : Session
download = record {
  proto_id = 1;
  byte_count = 600;
  packet_count = 6;
  dl_packet_count = 6;
  ul_packet_count = 0;
  dl_byte_count = 600;
  ul_byte_count = 0;
  last_activity_time = late;
}

run-conserves_example :
    total dl_bytes (run config (micro_flow_report_alloc_init 3) (upload ∷ download ∷ download ∷ []))
      % 2 ^ 32
    ≡ 1200
run-conserves_example =
    run-conserves config dl_bytes 3 (upload ∷ download ∷ download ∷ []) (omega arith) (omega arith)
