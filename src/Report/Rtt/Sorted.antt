-- ===== src/Report/Rtt/Sorted.antt =====
-- The order of the lists of `src/modules/dpi/report/tcp_rtt.c`.
use mmt_probe.Base.{ℕ, suc, ◌≤◌, ◌<◌, List, [], ◌∷◌, ◌==◌, Bool-cases, inl, inr, arith}
use mmt_probe.Report.Rtt.{
  Timeval, PktNode, TcpRtt, Direction, uplink, downlink, other, pkts, set_pkts, tcp_rtt_init,
  expected_ack, expected_ack_number, insert, remove_acked, acknowledge, tcp_rtt_add_packet,
}

-- every node expects a smaller number than `bound`, each a smaller one than the node before it
abbrev pub IsBelow : ℕ → List PktNode → Type 0
IsBelow bound [] = Unit {0}
IsBelow bound (p ∷ l) = (expected_ack_number p < bound) × IsBelow (expected_ack_number p) l

-- strictly descending
abbrev pub IsDescending : List PktNode → Type 0
IsDescending [] = Unit {0}
IsDescending (p ∷ l) = IsBelow (expected_ack_number p) l

abbrev pub IsSorted : TcpRtt → Type 0
IsSorted rtt = IsDescending rtt.up × IsDescending rtt.down

-- The states that a session's packets lead to, in any order.
pub data Reach : TcpRtt → Type 0 where
  start : Reach tcp_rtt_init
  packet :
      {rtt : TcpRtt}
      → Reach rtt
      → (direction : Direction) (ack_num seq_num data_len : ℕ) (ts : Timeval)
      → Reach (tcp_rtt_add_packet rtt direction ack_num seq_num data_len ts).rtt

IsBelow-weaken : (a b : ℕ) (l : List PktNode) → a ≤ b → IsBelow a l → IsBelow b l
IsBelow-weaken a b [] h d = d
IsBelow-weaken a b (p ∷ l) h d = (omega (arith, d.0), d.1)

pub IsBelow-IsDescending : (b : ℕ) (l : List PktNode) → IsBelow b l → IsDescending l
IsBelow-IsDescending b [] d = d
IsBelow-IsDescending b (p ∷ l) d = d.1

insert-IsBelow :
    (seq len : ℕ) (ts : Timeval) (b : ℕ) (l : List PktNode)
    → expected_ack seq len < b
    → IsBelow b l
    → IsBelow b (insert seq len ts l)
unfolding insert
insert-IsBelow seq len ts b [] h d = (h, d)
insert-IsBelow seq len ts b (p ∷ l) h d =
    ground (arith, insert-IsBelow seq len ts (expected_ack_number p) l)

pub insert-IsDescending :
    (seq len : ℕ) (ts : Timeval) (l : List PktNode)
    → IsDescending l
    → IsDescending (insert seq len ts l)
unfolding insert
insert-IsDescending seq len ts [] d = d
insert-IsDescending seq len ts (p ∷ l) d =
    ground (arith, insert-IsBelow seq len ts (expected_ack_number p) l)

remove_acked-IsBelow :
    (ack b : ℕ) (l : List PktNode) → IsBelow b l → IsBelow b (remove_acked ack l).1
unfolding remove_acked
remove_acked-IsBelow ack b [] d = d
remove_acked-IsBelow ack b (p ∷ l) d = elim (Bool-cases (expected_ack_number p == ack)) [
  | inl e ↦ rw e (
      remove_acked-IsBelow p.seq_number b l
        (IsBelow-weaken (expected_ack_number p) b l (omega (arith, d.0)) d.1))
  | inr e ↦ rw e d
]

acknowledge-IsBelow :
    (ack : ℕ) (ts : Timeval) (b : ℕ) (l : List PktNode)
    → IsBelow b l
    → IsBelow b (acknowledge ack ts l).rest
unfolding acknowledge
acknowledge-IsBelow ack ts b [] d = d
acknowledge-IsBelow ack ts b (p ∷ l) d = elim (Bool-cases (expected_ack_number p == ack)) [
  | inl e ↦ rw e (remove_acked-IsBelow ack b (p ∷ l) d)
  | inr e ↦ rw e (d.0, acknowledge-IsBelow ack ts (expected_ack_number p) l d.1)
]

acknowledge-IsDescending :
    (ack : ℕ) (ts : Timeval) (l : List PktNode)
    → IsDescending l
    → IsDescending (acknowledge ack ts l).rest
acknowledge-IsDescending ack ts [] d = unfold acknowledge in d
acknowledge-IsDescending ack ts (p ∷ l) d =
    IsBelow-IsDescending (suc (expected_ack_number p)) (acknowledge ack ts (p ∷ l)).rest
      (acknowledge-IsBelow ack ts (suc (expected_ack_number p)) (p ∷ l) (omega arith, d))

stored_side :
    (rtt : TcpRtt) (direction : Direction) (l : List PktNode)
    → IsSorted rtt
    → IsDescending l
    → IsSorted (set_pkts rtt direction l)
stored_side rtt uplink l s d = (d, s.1)
stored_side rtt downlink l s d = (s.0, d)

pub pkts-IsDescending :
    (rtt : TcpRtt) (direction : Direction) → IsSorted rtt → IsDescending (pkts rtt direction)
pkts-IsDescending rtt uplink s = s.0
pkts-IsDescending rtt downlink s = s.1

pub tcp_rtt_add_packet-IsSorted :
    (rtt : TcpRtt) (direction : Direction) (ack_num seq_num data_len : ℕ) (ts : Timeval)
    → IsSorted rtt
    → IsSorted (tcp_rtt_add_packet rtt direction ack_num seq_num data_len ts).rtt
unfolding tcp_rtt_add_packet
tcp_rtt_add_packet-IsSorted rtt direction ack_num seq_num data_len ts s =
    let stored = set_pkts rtt direction (insert seq_num data_len ts (pkts rtt direction)) in
    let i = stored_side rtt direction (insert seq_num data_len ts (pkts rtt direction)) s (
      insert-IsDescending seq_num data_len ts (pkts rtt direction)
        (pkts-IsDescending rtt direction s)) in
    elim (Bool-cases (ack_num == 0)) [
      | inl e ↦ rw e i
      | inr e ↦ rw e (
          stored_side stored (other direction)
            (acknowledge ack_num ts (pkts stored (other direction))).rest i
            (acknowledge-IsDescending ack_num ts (pkts stored (other direction))
              (pkts-IsDescending stored (other direction) i)))
    ]

-- Whatever packets a session sees, in whatever order, both lists of the segments that wait for
-- an acknowledgement are strictly descending in the number that acknowledges them; so no two
-- segments of a list wait for the same number.
pub Reach-IsSorted : (rtt : TcpRtt) → Reach rtt → IsSorted rtt
Reach-IsSorted rtt start = omega arith
Reach-IsSorted _ (packet {rtt} r direction ack_num seq_num data_len ts) =
    tcp_rtt_add_packet-IsSorted rtt direction ack_num seq_num data_len ts (Reach-IsSorted rtt r)
