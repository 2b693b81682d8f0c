-- ===== src/Capture/Worker.antt =====
-- The loop of a worker thread over the packets of its ring, `_worker_thread` of
-- src/modules/packet_capture/pcap/pcap_capture.c. What the header of an element says, its length
-- and its time, is a parameter.
pub mod Drain
use mmt_probe.Base.{
  ℕ, zero, suc, ◌+◌, ◌-◌, Bool, List, [], ◌∷◌, ◌++◌, Option, none, some, ◌==◌, if◌then◌else◌,
}
use mmt_probe.Capture.DataRing.{DataRing, data_pop_bulk, get_data, data_update_tail}
use mmt_probe.Capture.Timer.{Periods, Milestones, Called, check_milestones}

-- the loop over all but the last packet of a bulk, from `fifo_tail_index` on
pub read_packets : DataRing → ℕ → ℕ → List ℕ
read_packets fifo fifo_tail_index zero = []
read_packets fifo fifo_tail_index (suc i) =
    read_packets fifo fifo_tail_index i ++ get_data fifo (i + fifo_tail_index) ∷ []

-- A turn: the packets that were processed, in order, and the ring; `goes_on` has the time too.
pub data PacketTurn : Type 0 where
  ended : List ℕ → DataRing → PacketTurn
  goes_on : List ℕ → DataRing → ℕ → PacketTurn

-- `tv_sec` and `len` of a header; a length of BREAK_PCAP_NUMBER, 0, tells the worker to exit.
module _ (tv_sec len : ℕ → ℕ) where
  process_bulk : ℕ → DataRing → Option ℕ → PacketTurn
  process_bulk now fifo none = goes_on [] fifo now
  process_bulk now fifo (some avail_pkt_count) =
      let tail = fifo.fifo_index.tail in
      let packets = read_packets fifo tail (avail_pkt_count - 1) in
      let last = get_data fifo (avail_pkt_count - 1 + tail) in
      if len last == 0
      then ended packets fifo
      else goes_on (packets ++ last ∷ []) (data_update_tail fifo tail avail_pkt_count) (tv_sec last)

  -- up to the update of the tail
  pub process_packets : ℕ → DataRing → PacketTurn
  unfolding process_bulk
  process_packets now fifo =
      let (avail_pkt_count, popped) = data_pop_bulk fifo in process_bulk now popped avail_pkt_count

  -- the end of the turn, online with the time of the system
  abbrev pub check_timers : Periods → Option ℕ → ℕ → Milestones → Called × Milestones
  check_timers p none now m = check_milestones p now m
  check_timers p (some system_time) now m = check_milestones p system_time m

  -- A turn of the loop: `none` as the milestones is that the thread has left it. The system's time is
  -- `none` offline.
  abbrev end_turn :
      Periods → Option ℕ → Milestones → PacketTurn → PacketTurn × Option (Called × Milestones)
  end_turn p system_time m (ended packets fifo) = (ended packets fifo, none)
  end_turn p system_time m (goes_on packets fifo now) =
      (goes_on packets fifo now, some (check_timers p system_time now m))

  abbrev pub worker_turn :
      Periods → Option ℕ → ℕ → DataRing → Milestones → PacketTurn × Option (Called × Milestones)
  worker_turn p system_time now fifo m = end_turn p system_time m (process_packets now fifo)
