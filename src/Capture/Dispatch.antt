-- ===== src/Capture/Dispatch.antt =====
-- The reader of the pcap capture with several threads,
-- src/modules/packet_capture/pcap/pcap_capture.c: which worker a packet goes to, and what happens
-- when its ring is full. The bytes that are copied into the element of the ring are not modelled.
pub mod Flow
pub mod Total
use mmt_probe.Base.{
  ℕ, ◌+◌, ◌*◌, ◌/◌, ◌%◌, ◌^◌, Bool, ◌||◌, ◌&&◌, ◌-◌, List, Option, none, some, length, get_or, set,
  ltb, ◌==◌, if◌then◌else◌,
}
use mmt_probe.Base.Words.{or_bits, xor_bits}
use mmt_probe.Base.Bytes.{Bytes, read16}
use mmt_probe.Capture.LockFree.{Status, success, full, empty}
use mmt_probe.Capture.DataRing.{DataRing, data_push}

-- `( (x >> 16) ^ x ) * 0x45d9f3b`
abbrev pub mix : ℕ → ℕ
mix x = xor_bits 32 (x / 2 ^ 16) x * 73244475 % 2 ^ 32

unfoldable pub hash : ℕ → ℕ
hash x = let y = mix (mix x) in xor_bits 32 (y / 2 ^ 16) y

abbrev pub read32 : Bytes → ℕ → ℕ
read32 packet i = read16 packet i + 2 ^ 16 * read16 packet (i + 2)

-- "src and dst ports of TCP or UDP"
abbrev pub has_ports : Bytes → ℕ → Bool
has_ports packet ip_offset =
    let proto_id = get_or packet (ip_offset - 3) 0 in proto_id == 6 || proto_id == 17

abbrev pub ports_of : Bytes → ℕ → ℕ × ℕ
ports_of packet ip_offset =
    if has_ports packet ip_offset
    then (read16 packet (ip_offset + 8), read16 packet (ip_offset + 10))
    else (0, 0)

-- the end of `_get_packet_hash_number`; `none`: it reads behind the packet.
pub hash_at : Bytes → ℕ → Option ℕ
hash_at packet ip_offset =
    let (port_src, port_dst) = ports_of packet ip_offset in
    if has_ports packet ip_offset && ltb (length packet) (ip_offset + 12)
    then none
    else some (
        hash (
          or_bits 32 (or_bits 32 (read32 packet ip_offset) (read32 packet (ip_offset + 4)))
            (or_bits 32 port_src port_dst)))

hash_of_offset : Bytes → Option ℕ → Option ℕ
hash_of_offset packet none = some 0
hash_of_offset packet (some ip_offset) = hash_at packet ip_offset

-- the switch on the protocol of the Ethernet header: IP, VLAN, or another
unfoldable pub ip_offset_of : Bytes → Option ℕ
ip_offset_of packet =
    let proto = read16 packet 12 in
    if proto == 8 then some 26 else if proto == 129 then some 30 else none

-- `_get_packet_hash_number`
unfoldable pub get_packet_hash_number : Bytes → Option ℕ
unfolding hash_of_offset
get_packet_hash_number packet =
    if ltb (length packet) 38 then some 0 else hash_of_offset packet (ip_offset_of packet)

-- What is used of `worker_context_t`.
pub record Worker : Type 0 where
  pub fifo : DataRing
  pub pkt_dropped : ℕ

pub data Outcome : Type 0 where
  pushed dropped waits overread : Outcome

abbrev pub is_pushed : Bool → Status → DataRing → ℕ → Outcome × Worker
is_pushed offline success fifo pkt_dropped =
    (pushed, record { fifo = fifo; pkt_dropped = pkt_dropped })
is_pushed offline _ fifo pkt_dropped =
    if offline
    then (waits, record { fifo = fifo; pkt_dropped = pkt_dropped })
    else (dropped, record { fifo = fifo; pkt_dropped = pkt_dropped + 1 })

-- a turn of the loop around `data_spsc_ring_push_tmp_element`; `waits` sleeps and tries again.
pub try_push : Bool → Worker → Outcome × Worker
try_push offline w =
    let (status, fifo) = data_push w.fifo in is_pushed offline status fifo w.pkt_dropped

-- the packet goes to one worker of `smp`
pub push_to : Bool → List Worker → ℕ → Worker → Outcome × List Worker
push_to offline smp i w = let (outcome, w') = try_push offline w in (outcome, set smp i w')

dispatch : Bool → ℕ → List Worker → Worker → Option ℕ → Outcome × List Worker
dispatch offline thread_count smp absent none = (overread, smp)
dispatch offline thread_count smp absent (some h) =
    let i = h % thread_count in push_to offline smp i (get_or smp i absent)

-- `_got_a_packet_smp`; `absent` stands for what is behind the array `smp`.
pub got_a_packet_smp : Bool → ℕ → List Worker → Worker → Bytes → Outcome × List Worker
unfolding dispatch
got_a_packet_smp offline thread_count smp absent packet =
    dispatch offline thread_count smp absent (get_packet_hash_number packet)
