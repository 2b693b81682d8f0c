-- ===== src/Capture/Reader.antt =====
-- The function that the pcap capture calls for each packet and each time-out, `_got_a_packet` of
-- src/modules/packet_capture/pcap/pcap_capture.c, with several threads.
pub mod Whole
use mmt_probe.Base.{ℕ, ◌+◌, Bool, true, false, not, ◌&&◌, List, ltb, ◌==◌, if◌then◌else◌}
use mmt_probe.Base.Words.{add64}
use mmt_probe.Base.Bytes.{Bytes}
use mmt_probe.Capture.Dispatch.{Worker, Outcome, pushed, dropped, waits, overread, got_a_packet_smp}
use mmt_probe.Capture.Timer.{Periods, Milestones}

-- what is used of the header of a packet, and its bytes
pub record Caught : Type 0 where
  pub tv_sec : ℕ
  pub len : ℕ
  pub data_of : Bytes

-- `smp` and `traffic_stat` of `probe_context_t`, and the static variables of the function
pub record Reader : Type 0 where
  pub smp : List Worker
  pub bytes_receive : ℕ
  pub packets_receive : ℕ
  pub now : ℕ
  pub milestones : Milestones

-- Does `_got_a_packet_smp` return? Offline it tries again while the ring is full.
abbrev pub returns : Outcome → Bool
returns pushed = true
returns dropped = true
returns waits = false
returns overread = false

-- "when having packet data to process"
pub take_packet : Bool → ℕ → Worker → Caught → Reader → Outcome × Reader
take_packet offline thread_count absent p r =
    let (outcome, smp) = got_a_packet_smp offline thread_count r.smp absent p.data_of in
    (
      outcome,
      if returns outcome
          then record r {
            smp = smp;
            now = p.tv_sec;
            bytes_receive = add64 r.bytes_receive p.len;
            packets_receive = add64 r.packets_receive 1;
          }
          else record r { smp = smp },
    )

-- "first times: we need to initialize the 2 milestones"
abbrev pub begin_milestones : Periods → ℕ → Milestones → Milestones
begin_milestones p now m =
    if m.next_output_ts == 0 && not (now == 0)
    then record { next_stat_ts = now + p.stat_period; next_output_ts = now + p.cache_period }
    else m

-- what follows the packet: whether the statistics of the traffic are printed; `time` is the time of
-- the system.
pub end_of_call : Periods → Bool → ℕ → Reader → Bool × Reader
end_of_call p offline time r =
    let now = if offline then r.now else time in
    let m = begin_milestones p now r.milestones in
    let stat = ltb m.next_stat_ts now in
    (
      stat,
      record r {
        now = now;
        milestones = record m {
          next_stat_ts = if stat then m.next_stat_ts + p.stat_period else m.next_stat_ts;
        };
      },
    )

-- `_got_a_packet` with a packet; the rest of the function is left out where it does not come to it.
pub got_a_packet : Periods → Bool → ℕ → ℕ → Worker → Caught → Reader → Outcome × Bool × Reader
unfolding take_packet end_of_call
got_a_packet periods offline time thread_count absent p r =
    let (outcome, r') = take_packet offline thread_count absent p r in
    let (stat, last) = end_of_call periods offline time r' in
    if returns outcome then (outcome, stat, last) else (outcome, false, r')
