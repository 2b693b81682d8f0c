-- ===== src/Tests/Capture.antt =====
-- The queue of `src/modules/packet_capture/pcap` on a small ring.
use mmt_probe.Base.{
  ◌⊎◌, ℕ, ◌+◌, ◌-◌, ◌*◌, replicate, false, ◌≤◌, ◌≡◌, refl, List, [], ◌∷◌, ◌++◌, some, true, arith,
}
use mmt_probe.Capture.LockFree.{
  Queue, System, Producer, Consumer, passed, written, ring_init, queue_init, push_check, push_write,
  push_publish, push_begins, push_writes, push_ends, Reach, start, next,
}
use mmt_probe.Capture.LockFree.Inv.{IsValid, Inv}
use mmt_probe.Capture.LockFree.Keep.{contents}
use mmt_probe.Capture.LockFree.Fifo.{Reach-Keeps}
use mmt_probe.Capture.LockFree.Refine.{push, pop, calls, fifo_calls, Represents, calls_refine}
use mmt_probe.Capture.Dispatch.{Worker, get_packet_hash_number, ip_offset_of}
use mmt_probe.Capture.Dispatch.Flow.{untagged, get_packet_hash_number-Against}
use mmt_probe.Capture.Reader.{Caught, got_a_packet}
use mmt_probe.Capture.Reader.Whole.{
  Capture, IsAccounted, catches, starts_idle, step, Reach-IsAccounted,
}
use mmt_probe.Capture.Worker.{process_packets}
use mmt_probe.Capture.Worker.Drain.{Drains, process_packets-Drains}
use mmt_probe.Capture.Timer.{Periods, turns, not_begun, timers-paced}
use mmt_probe.Base.Bytes.{Bytes}
use mmt_probe.Capture.DataRing.{DataRing}
use mmt_probe.Capture.Dpdk.{
  ring_create, ring_enqueue_bulk, enqueue_checked, write_cells, advance_index, refresh_free,
  ring_dequeue_burst, dequeue_checked, read_cells, refresh_count,
}

abbrev memory : List ℕ
memory = 0 ∷ 0 ∷ 0 ∷ 0 ∷ []

abbrev begun : System
begun = record {
  queue = ring_init memory 2;
  producer = Producer.outside;
  consumer = Consumer.outside;
}

abbrev checked : System
checked = record begun { queue = (push_check begun.queue).1; producer = passed 7 }

abbrev filled : System
filled = record checked { queue = push_write checked.queue 7; producer = written 7 }

abbrev pushed : System
pushed = record filled { queue = push_publish filled.queue; producer = Producer.outside }

has_room : (push_check begun.queue).0 ≡ true
unfolding push_check ring_init queue_init
has_room = refl

abbrev push_run : Reach memory 2 (7 ∷ []) [] pushed
push_run =
    next (7 ∷ []) [] pushed
      (next [] [] filled (next [] [] checked start (push_begins begun 7 refl has_room))
        (push_writes checked 7 refl))
      (push_ends filled 7 refl)

Reach-Keeps_example : Inv pushed × (7 ∷ [] ≡ [] ++ contents pushed.queue)
Reach-Keeps_example = Reach-Keeps memory 2 refl (omega arith) (omega arith) push_run

-- two values, round the end of the cells
abbrev two_values : Queue
two_values = record {
  head = 1;
  tail = 4;
  cached_head = 0;
  cached_tail = 4;
  size = 5;
  cells = 9 ∷ 0 ∷ 0 ∷ 0 ∷ 8 ∷ [];
}

two_values-IsValid : IsValid two_values
two_values-IsValid = record {
  size_ge = omega arith;
  size_fits = omega arith;
  storage = refl;
  head_in = omega arith;
  tail_in = omega arith;
  cached_head_in = omega arith;
  cached_tail_in = omega arith;
  head_cached = omega arith;
  tail_cached = omega arith;
  room = omega arith;
}

contents-two_values : contents two_values ≡ 8 ∷ 9 ∷ []
contents-two_values = refl

-- an empty ring that has gone on to its third element
abbrev idle : DataRing
idle = record {
  elements = 50 ∷ 51 ∷ 52 ∷ 53 ∷ 54 ∷ [];
  fifo_index = record {
    head = 2;
    tail = 2;
    cached_head = 2;
    cached_tail = 2;
    size = 5;
    cells = 0 ∷ 1 ∷ 0 ∷ 0 ∷ 0 ∷ [];
  };
}

idle-IsValid : IsValid idle.fifo_index
idle-IsValid = record {
  size_ge = omega arith;
  size_fits = omega arith;
  storage = refl;
  head_in = omega arith;
  tail_in = omega arith;
  cached_head_in = omega arith;
  cached_tail_in = omega arith;
  head_cached = omega arith;
  tail_cached = omega arith;
  room = omega arith;
}

calls_refine_example :
    ((calls (push 7 ∷ pop ∷ []) two_values).0 ≡ (fifo_calls 2 (push 7 ∷ pop ∷ []) (8 ∷ 9 ∷ [])).0)
    × Represents 2
        (fifo_calls 2 (push 7 ∷ pop ∷ []) (8 ∷ 9 ∷ [])).1
        (calls (push 7 ∷ pop ∷ []) two_values).1
calls_refine_example =
    calls_refine 2 (push 7 ∷ pop ∷ []) (8 ∷ 9 ∷ []) two_values
      (record { valid = two_values-IsValid; holds = contents-two_values; sized = refl })

-- an IP packet of TCP, its addresses 1.0.0.0 and 2.0.0.0 and its ports 3 and 4 as the machine
-- reads them, and its answer
abbrev packet_of : ℕ → ℕ → ℕ → ℕ → Bytes
packet_of src dst port_src port_dst =
    replicate 12 0
    ++ (8
        ∷ 0
        ∷ 69
        ∷ (replicate 8 0
            ++ (6 ∷ 0 ∷ 0 ∷ src ∷ 0 ∷ 0 ∷ 0 ∷ dst ∷ 0 ∷ 0 ∷ 0 ∷ port_src ∷ 0 ∷ port_dst ∷ 0 ∷ [])))

abbrev to_server : Bytes
to_server = packet_of 1 2 3 4

abbrev from_server : Bytes
from_server = packet_of 2 1 4 3

get_packet_hash_number-Against_example :
    get_packet_hash_number from_server ≡ get_packet_hash_number to_server
get_packet_hash_number-Against_example =
    get_packet_hash_number-Against to_server from_server 14 (record {
      has_ip = untagged refl refl;
      has_ip' = untagged refl refl;
      enough = omega arith;
      enough' = omega arith;
      same_protocol = refl;
      ip_src = refl;
      ip_dst = refl;
      port_src = refl;
      port_dst = refl;
    })

-- 40 bytes of a packet of TCP with a VLAN tag
abbrev tagged : Bytes
tagged = replicate 12 0 ++ (129 ∷ 0 ∷ (replicate 13 0 ++ (6 ∷ replicate 12 0)))

tagged_offset : ip_offset_of tagged ≡ some 30
unfolding ip_offset_of
tagged_offset = refl

abbrev idle_worker : Worker
idle_worker = record { fifo = idle; pkt_dropped = 0 }

short_packet : get_packet_hash_number (1 ∷ 2 ∷ []) ≡ some 0
unfolding get_packet_hash_number
short_packet = refl

abbrev workers : List Worker
workers = idle_worker ∷ idle_worker ∷ []

abbrev nothing_caught : Capture
nothing_caught = record {
  reader = record {
    smp = workers;
    bytes_receive = 0;
    packets_receive = 0;
    now = 0;
    milestones = not_begun;
  };
  processed = 0;
}

abbrev small : Caught
small = record { tv_sec = 7; len = 60; data_of = 1 ∷ 2 ∷ [] }

abbrev periods : Periods
periods = record { stat_period = 5; cache_period = 3; is_sampled = true }

timers-paced_example :
    let (stats, samples, last) = turns periods (100 ∷ 103 ∷ 106 ∷ 107 ∷ []) not_begun in
    (last.next_stat_ts ≡ 100 + (stats + 1) * 5)
    × (last.next_output_ts ≡ 100 + (samples + 1) * 3)
    × (stats * 5 ≤ 110 - 100 - 1)
    × (samples * 3 ≤ 110 - 100 - 1)
    × (107 ≤ 100 + (stats + 1) * 5)
    × (((periods.is_sampled ≡ true) × (107 ≤ 100 + (samples + 1) * 3))
        ⊎ ((periods.is_sampled ≡ false) × (samples ≡ 0)))
timers-paced_example =
    timers-paced periods 100 110 (103 ∷ 106 ∷ 107 ∷ []) (λ e. absurd (omega arith)) (omega arith)
      (omega arith, (omega arith, (omega arith, tt)))
      (omega arith, (omega arith, (omega arith, tt)))
      (omega arith, (omega arith, (omega arith, tt)))

-- two packets in the ring, one of them in the first cell
abbrev busy : DataRing
busy = record {
  elements = 50 ∷ 51 ∷ 52 ∷ 53 ∷ 54 ∷ 55 ∷ 56 ∷ 57 ∷ 58 ∷ 59 ∷ [];
  fifo_index = two_values;
}

process_packets-Drains_example :
    Drains (λ e. e) busy (process_packets (λ e. 100 + e) (λ e. e) 0 busy)
process_packets-Drains_example =
    process_packets-Drains (λ e. 100 + e) (λ e. e) 0 busy two_values-IsValid

-- The ring of DPDK, filled to its last cell, looks empty to the consumer.
full_ring_looks_empty :
    (ring_dequeue_burst (ring_enqueue_bulk (ring_create (0 ∷ 0 ∷ []) 2) (5 ∷ 6 ∷ [])).1 2).0 ≡ []
unfolding ring_enqueue_bulk enqueue_checked write_cells advance_index refresh_free
    ring_dequeue_burst dequeue_checked read_cells refresh_count
full_ring_looks_empty = refl

abbrev one_caught : Capture
one_caught = record {
  reader = (got_a_packet periods false 100 2 idle_worker small nothing_caught.reader).2;
  processed = 0;
}

Reach-IsAccounted_example : IsAccounted one_caught
Reach-IsAccounted_example = Reach-IsAccounted periods false idle_worker one_caught (
    step nothing_caught one_caught
      (starts_idle workers (omega arith) (idle-IsValid, (idle-IsValid, tt)) refl)
      (catches 100 0 small short_packet))
