-- ===== src/Tests/Dpi.antt =====
-- The dump of packets and the life of a session, `src/modules/dpi`.
use mmt_probe.Base.{zero, suc, ◌*◌, ℕ, ◌-◌, true, List, [], ◌∷◌, some}
use mmt_probe.Report.Rtt.{Timeval}
use mmt_probe.Report.Session.{Counters, no_flow}
use mmt_probe.Report.Session.Figures.{no_counters}
use mmt_probe.Report.MicroFlow.{MicroFlowConf, Session}
use mmt_probe.Dpi.Life.{Created}
use mmt_probe.Dpi.Life.Events.{Event, packet, period}
use mmt_probe.Dpi.Dump.{Captured}
use mmt_probe.Tests.Session.{from_port, seen, request, answer}

abbrev packet_at : ℕ → List ℕ → Captured
packet_at moment path = record {
  ts = record { tv_sec = moment; tv_usec = 7 };
  caplen = 4;
  len = 1500;
  proto_path = path;
  bytes = 1 ∷ 2 ∷ 3 ∷ 4 ∷ [];
}

abbrev some_packets : List Captured
some_packets =
    packet_at 10 (99 ∷ 178 ∷ 354 ∷ [])
    ∷ packet_at 11 (99 ∷ 178 ∷ 376 ∷ [])
    ∷ packet_at 99 (99 ∷ 178 ∷ 354 ∷ 153 ∷ [])
    ∷ []

abbrev late : Timeval
late = record { tv_sec = 9; tv_usec = 0 }

abbrev short_flows : MicroFlowConf
short_flows = record {
  packet_threshold = 2;
  byte_threshold = 100;
  report_packets_count = 10;
  report_bytes_count = 1000;
  report_flows_count = 5;
}

abbrev counts : ℕ → ℕ → Session
counts packets bytes = record {
  proto_id = 1;
  byte_count = bytes;
  packet_count = packets;
  dl_packet_count = 1;
  ul_packet_count = packets - 1;
  dl_byte_count = 60;
  ul_byte_count = bytes - 60;
  last_activity_time = late;
}

abbrev first_packet : Created
first_packet = record { id = 7; is_over_ip = true; addresses = from_port }

-- no packets, or 100 bytes up for each packet up
abbrev counters_at : ℕ → Counters
counters_at zero = no_counters
counters_at (suc n) = record {
  packets = record { upload = n; download = 1 };
  volumes = record { upload = n * 100; download = 60 };
  payload = no_flow;
}

abbrev events : List Event
events =
    packet (some 3) request
    ∷ period (counts 2 160) (seen 1 100 5)
    ∷ packet (some 3) answer
    ∷ period (counts 4 360) (seen 3 300 9)
    ∷ []
