-- ===== src/Tests/Check.antt =====
-- The check of src/configure.c on two configurations.
use mmt_probe.Base.{◌≡◌, ◌↔◌, refl, true, false, none, some, arith}
use mmt_probe.Base.Words.{and_bits}
use mmt_probe.Config.Check.{
  Modules, ProbeConf, faults, accepted, conf_validate, and_then, deref, is_power_of_two,
  check_copies, check_forward, check_session, session_enabled, check_behaviour, check_reassembly,
  check_reconstruction, check_online, check_dpdk, default_dump,
}
use mmt_probe.Config.Check.Consistent.{IsConsistent, conf_validate-IsConsistent}

abbrev all_modules : Modules
all_modules = record {
  forward_packet = true;
  security = true;
  tcp_reassembly = true;
  ftp_reconstruct = true;
  http_reconstruct = true;
  dpdk_capture = true;
}

abbrev sound : ProbeConf
sound = record {
  is_enable_ip_defragmentation = true;
  is_enable_tcp_reassembly = false;
  forward_packet = some (record { is_enable = true; nb_copies = 1 });
  security = some true;
  behaviour = some true;
  microflow = some (record { byte_threshold = 0; report_bytes_count = 7 });
  session = some (record {
    is_enable = true;
    is_ftp = false;
    is_http = false;
    is_ssl = false;
    is_rtp = false;
    is_gtp = true;
  });
  pcap_dump = some 0;
  ftp = some false;
  http = some false;
  offline = some false;
  thread_count = 2;
  thread_queue_packet_threshold = 4096;
}

conf_validate-IsConsistent_example :
    (accepted (conf_validate all_modules sound).0 ≡ true) ↔ IsConsistent all_modules sound
conf_validate-IsConsistent_example = conf_validate-IsConsistent all_modules sound (omega arith)

sound_is_accepted : accepted (conf_validate all_modules sound).0 ≡ true
unfolding conf_validate and_then deref and_bits is_power_of_two check_copies check_forward
    check_session session_enabled check_behaviour check_reassembly check_reconstruction check_online
    check_dpdk
sound_is_accepted = refl

dump_by_the_hour : (conf_validate all_modules sound).1.pcap_dump ≡ some 3600
unfolding conf_validate default_dump
dump_by_the_hour = refl

-- The program reads through a null pointer where the file has no block `session-report`.
no_session_report : (conf_validate all_modules (record sound { session = none })).0 ≡ faults
unfolding conf_validate and_then deref check_copies check_forward check_session
no_session_report = refl
