-- ===== src/Report/Rtt.antt =====
-- `src/modules/dpi/report/tcp_rtt.c`: the segments of a TCP session that wait for their
-- acknowledgement. A linked list of nodes is the list of what the nodes hold, its head first.
pub mod Sorted
pub mod Acks
pub mod Measure
use mmt_probe.Base.{
  ℕ, ◌+◌, ◌-◌, ◌*◌, ◌%◌, ◌^◌, Bool, ◌&&◌, ◌||◌, List, [], ◌∷◌, Option, none, some, ltb, ◌==◌,
  if◌then◌else◌,
}
use mmt_probe.Base.Words.{add32}

-- `struct timeval`
pub record Timeval : Type 0 where
  pub tv_sec : ℕ
  pub tv_usec : ℕ

-- `u_second_diff` of `src/lib/tools.h`, as the `uint64_t` that it is stored in
abbrev pub u_second_diff : Timeval → Timeval → ℕ
u_second_diff end start =
    (end.tv_sec * 1000000
      + end.tv_usec
      + 2 ^ 64
      - (start.tv_sec * 1000000 + start.tv_usec) % 2 ^ 64)
    % 2 ^ 64

pub record PktNode : Type 0 where
  pub seq_number : ℕ
  pub data_len : ℕ
  pub timestamp : Timeval

-- `struct tcp_rtt_struct`: `pkts[0]` and `pkts[1]`
pub record TcpRtt : Type 0 where
  pub up : List PktNode
  pub down : List PktNode

-- The `direction` argument: 0 or 1.
pub data Direction : Type 0 where
  uplink : Direction
  downlink : Direction

-- `other_dir`
abbrev pub other : Direction → Direction
other uplink = downlink
other downlink = uplink

abbrev pub pkts : TcpRtt → Direction → List PktNode
pkts rtt uplink = rtt.up
pkts rtt downlink = rtt.down

abbrev pub set_pkts : TcpRtt → Direction → List PktNode → TcpRtt
set_pkts rtt uplink l = record { up = l; down = rtt.down }
set_pkts rtt downlink l = record { up = rtt.up; down = l }

abbrev pub tcp_rtt_init : TcpRtt
tcp_rtt_init = record { up = []; down = [] }

-- `expected_ack_number`, in `uint32_t`
unfoldable pub expected_ack : ℕ → ℕ → ℕ
expected_ack seq len = add32 (add32 seq len) 1

abbrev pub expected_ack_number : PktNode → ℕ
expected_ack_number p = expected_ack p.seq_number p.data_len

-- The test on the two timestamps of a retransmission.
unfoldable pub is_older : Timeval → Timeval → Bool
is_older a b = ltb a.tv_sec b.tv_sec || (ltb a.tv_usec b.tv_usec && a.tv_sec == b.tv_sec)

-- what a retransmission makes of the node it finds
abbrev pub renew : Timeval → PktNode → PktNode
renew ts p = record {
  seq_number = p.seq_number;
  data_len = p.data_len;
  timestamp = if is_older p.timestamp ts then ts else p.timestamp;
}

-- Step 1 of `tcp_rtt_add_packet`: walk the descending list to the place of the new packet.
unfoldable pub insert : ℕ → ℕ → Timeval → List PktNode → List PktNode
insert seq len ts [] = record { seq_number = seq; data_len = len; timestamp = ts } ∷ []
insert seq len ts (p ∷ l) =
    let rest = insert seq len ts l in
    if ltb (expected_ack seq len) (expected_ack_number p)
    then p ∷ rest
    else (if expected_ack_number p == expected_ack seq len
        then renew ts p ∷ l
        else record { seq_number = seq; data_len = len; timestamp = ts } ∷ p ∷ l)

-- the loop that removes a node and those that its sequence number acknowledges in turn: the
-- number of nodes removed, and the rest
unfoldable pub remove_acked : ℕ → List PktNode → ℕ × List PktNode
remove_acked ack [] = (0, [])
remove_acked ack (p ∷ l) =
    let r = remove_acked p.seq_number l in
    if expected_ack_number p == ack then (1 + r.0, r.1) else (0, p ∷ l)

-- What step 2 yields: `*usec` where it is written, the counter, and the list.
pub record Acked : Type 0 where
  pub usec : Option ℕ
  pub counter : ℕ
  pub rest : List PktNode

-- Step 2 of `tcp_rtt_add_packet`: find the node that expects `ack`.
unfoldable pub acknowledge : ℕ → Timeval → List PktNode → Acked
acknowledge ack ts [] = record { usec = none; counter = 0; rest = [] }
acknowledge ack ts (p ∷ l) =
    let o = acknowledge ack ts l in
    let r = remove_acked ack (p ∷ l) in
    if expected_ack_number p == ack
    then record { usec = some (u_second_diff ts p.timestamp); counter = r.0; rest = r.1 }
    else record { usec = o.usec; counter = o.counter; rest = p ∷ o.rest }

-- The state after the call, the returned counter, and `*usec` where it is written.
pub record Added : Type 0 where
  pub rtt : TcpRtt
  pub counter : ℕ
  pub usec : Option ℕ

unfoldable pub tcp_rtt_add_packet : TcpRtt → Direction → ℕ → ℕ → ℕ → Timeval → Added
tcp_rtt_add_packet rtt direction ack_num seq_num data_len ts =
    let stored = set_pkts rtt direction (insert seq_num data_len ts (pkts rtt direction)) in
    let o = acknowledge ack_num ts (pkts stored (other direction)) in
    if ack_num == 0 then record { rtt = stored; counter = 0; usec = none } else record {
      rtt = set_pkts stored (other direction) o.rest;
      counter = o.counter;
      usec = o.usec;
    }
