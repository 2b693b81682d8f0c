-- ===== src/Report/Rtt/Acks.antt =====
-- What an acknowledgement removes from a list of `src/modules/dpi/report/tcp_rtt.c`.
use mmt_probe.Base.{
  ℕ, ◌+◌, ◌≡◌, ◌≢◌, refl, ap, ◌∙◌, true, List, [], ◌∷◌, ◌++◌, none, some, length, ◌==◌, Bool-cases,
  inl, inr, arith,
}
use mmt_probe.Report.Rtt.{
  Timeval, PktNode, TcpRtt, Direction, uplink, downlink, other, pkts, set_pkts, expected_ack_number,
  insert, u_second_diff, remove_acked, Acked, acknowledge, tcp_rtt_add_packet,
}

-- no node waits for the number
abbrev pub NoneWaits : ℕ → List PktNode → Type 0
NoneWaits ack [] = Unit {0}
NoneWaits ack (p ∷ l) = (expected_ack_number p ≢ ack) × NoneWaits ack l

-- The first node waits for the number, and each further one for the sequence number of the one
-- before it: the segments are contiguous.
abbrev pub IsChain : ℕ → List PktNode → Type 0
IsChain ack [] = Unit {0}
IsChain ack (p ∷ l) = (expected_ack_number p ≡ ack) × IsChain p.seq_number l

-- the number that the segment before a chain would wait for
abbrev pub after_chain : ℕ → List PktNode → ℕ
after_chain ack [] = ack
after_chain ack (p ∷ l) = after_chain p.seq_number l

-- the list does not continue a chain
abbrev pub EndsChain : ℕ → List PktNode → Type 0
EndsChain ack [] = Unit {0}
EndsChain ack (p ∷ l) = expected_ack_number p ≢ ack

-- What an acknowledgement number does to the list `l` that waits: the outcome is `o`.
pub data Outcome : ℕ → Timeval → List PktNode → Acked → Type 0 where
  no_ack :
      (ts : Timeval) (l : List PktNode)
      → Outcome 0 ts l (record { usec = none; counter = 0; rest = l })
  not_found :
      (ack : ℕ) (ts : Timeval) (l : List PktNode)
      → ack ≢ 0
      → NoneWaits ack l
      → Outcome ack ts l (record { usec = none; counter = 0; rest = l })
  found :
      (ack : ℕ) (ts : Timeval) (before : List PktNode) (p : PktNode) (chain after : List PktNode)
      → ack ≢ 0
      → NoneWaits ack before
      → IsChain ack (p ∷ chain)
      → EndsChain (after_chain ack (p ∷ chain)) after
      → Outcome ack ts (before ++ (p ∷ chain) ++ after) (record {
        usec = some (u_second_diff ts p.timestamp);
        counter = 1 + length chain;
        rest = before ++ after;
      })

record Removed (ack : ℕ) (l : List PktNode) (n : ℕ) (rest : List PktNode) : Type 0 where
  chain : List PktNode
  splits : l ≡ chain ++ rest
  counts : n ≡ length chain
  chained : IsChain ack chain
  ends : EndsChain (after_chain ack chain) rest

remove_acked_lem :
    (ack : ℕ) (l : List PktNode) → Removed ack l (remove_acked ack l).0 (remove_acked ack l).1
unfolding remove_acked
remove_acked_lem ack [] = record {
  chain = [];
  splits = refl;
  counts = refl;
  chained = omega arith;
  ends = omega arith;
}
remove_acked_lem ack (p ∷ l) =
    let r = remove_acked_lem p.seq_number l in
    elim (Bool-cases (expected_ack_number p == ack)) [
      | inl e ↦ rw e (record {
        chain = p ∷ r.chain;
        splits = ap (◌∷◌ p) r.splits;
        counts = omega (arith, r.counts);
        chained = (ground arith, r.chained);
        ends = r.ends;
      })
      | inr e ↦ rw e (record {
        chain = [];
        splits = refl;
        counts = refl;
        chained = omega arith;
        ends = ground arith;
      })
    ]

remove_acked_found :
    (ack : ℕ) (p : PktNode) (l : List PktNode)
    → (expected_ack_number p == ack) ≡ true
    → remove_acked ack (p ∷ l)
      ≡ (1 + (remove_acked p.seq_number l).0, (remove_acked p.seq_number l).1)
unfolding remove_acked
remove_acked_found ack p l e = rw e refl

passed :
    (ack : ℕ) (ts : Timeval) (p : PktNode) (l : List PktNode) (o : Acked)
    → expected_ack_number p ≢ ack
    → Outcome ack ts l o
    → ack ≢ 0
    → Outcome ack ts (p ∷ l) (record { usec = o.usec; counter = o.counter; rest = p ∷ o.rest })
passed _ _ p _ _ ne (no_ack ts l) nz = absurd (nz refl)
passed _ _ p _ _ ne (not_found ack ts l z n) nz = not_found ack ts (p ∷ l) z (ne, n)
passed _ _ p _ _ ne (found ack ts before q chain after z n c e) nz =
    found ack ts (p ∷ before) q chain after z (ne, n) c e

found_first :
    (ack : ℕ) (ts : Timeval) (p : PktNode) (l : List PktNode) (n : ℕ) (rest : List PktNode)
    → Removed p.seq_number l n rest
    → expected_ack_number p ≡ ack
    → ack ≢ 0
    → Outcome ack ts
        (p ∷ l)
        (record { usec = some (u_second_diff ts p.timestamp); counter = 1 + n; rest = rest })
found_first ack ts p l n rest r e nz =
    rw (r.splits, r.counts) (found ack ts [] p r.chain rest nz (omega arith) (e, r.chained) r.ends)

pub acknowledge_lem :
    (ack : ℕ) (ts : Timeval) (l : List PktNode) → ack ≢ 0 → Outcome ack ts l (acknowledge ack ts l)
unfolding acknowledge
acknowledge_lem ack ts [] nz = not_found ack ts [] nz (omega arith)
acknowledge_lem ack ts (p ∷ l) nz = elim (Bool-cases (expected_ack_number p == ack)) [
  | inl e ↦ rw e (
      rw (remove_acked_found ack p l e) (
        found_first ack ts p l (remove_acked p.seq_number l).0 (remove_acked p.seq_number l).1
          (remove_acked_lem p.seq_number l) (ground arith) nz))
  | inr e ↦
      rw e
        (passed ack ts p l (acknowledge ack ts l) (ground arith) (acknowledge_lem ack ts l nz) nz)
]

zero_ack :
    (ack : ℕ) (ts : Timeval) (l : List PktNode)
    → ack ≡ 0
    → Outcome ack ts l (record { usec = none; counter = 0; rest = l })
zero_ack ack ts l e = rw e (no_ack ts l)

set_pkts-other :
    (rtt : TcpRtt) (d : Direction) (l : List PktNode)
    → pkts (set_pkts rtt d l) (other d) ≡ pkts rtt (other d)
set_pkts-other rtt uplink l = refl
set_pkts-other rtt downlink l = refl

pub set_pkts-other-other :
    (rtt : TcpRtt) (d : Direction) (l : List PktNode)
    → pkts (set_pkts rtt (other d) l) d ≡ pkts rtt d
set_pkts-other-other rtt uplink l = refl
set_pkts-other-other rtt downlink l = refl

pub pkts-set_pkts :
    (rtt : TcpRtt) (d : Direction) (l : List PktNode) → pkts (set_pkts rtt d l) d ≡ l
pkts-set_pkts rtt uplink l = refl
pkts-set_pkts rtt downlink l = refl

-- For every packet, the list of its own direction is the one that `insert` yields, and in the
-- list of the other direction the packet removes nothing when its acknowledgement number is 0
-- or no segment waits for that number; otherwise it removes the first segment that waits for it
-- with all that follow contiguously, and no other, returns how many they are, and measures from
-- the time of the first of them.
pub tcp_rtt_add_packet_lem :
    (rtt : TcpRtt) (direction : Direction) (ack_num seq_num data_len : ℕ) (ts : Timeval)
    → (pkts (tcp_rtt_add_packet rtt direction ack_num seq_num data_len ts).rtt direction
        ≡ insert seq_num data_len ts (pkts rtt direction))
      × Outcome ack_num ts (pkts rtt (other direction)) (record {
        usec = (tcp_rtt_add_packet rtt direction ack_num seq_num data_len ts).usec;
        counter = (tcp_rtt_add_packet rtt direction ack_num seq_num data_len ts).counter;
        rest =
            pkts
              (tcp_rtt_add_packet rtt direction ack_num seq_num data_len ts).rtt
              (other direction);
      })
unfolding tcp_rtt_add_packet
tcp_rtt_add_packet_lem rtt direction ack_num seq_num data_len ts =
    let l = insert seq_num data_len ts (pkts rtt direction) in
    elim (Bool-cases (ack_num == 0)) [
      | inl e ↦
          rw (e, set_pkts-other rtt direction l)
            (
              pkts-set_pkts rtt direction l,
              zero_ack ack_num ts (pkts rtt (other direction)) (ground arith),
            )
      | inr e ↦
          rw (e, set_pkts-other rtt direction l)
            (
              set_pkts-other-other (set_pkts rtt direction l) direction
                    (acknowledge ack_num ts (pkts rtt (other direction))).rest
                  ∙ pkts-set_pkts rtt direction l,
              rw
                  (pkts-set_pkts (set_pkts rtt direction l) (other direction)
                    (acknowledge ack_num ts (pkts rtt (other direction))).rest)
                  (acknowledge_lem ack_num ts (pkts rtt (other direction)) (ground arith)),
            )
    ]
