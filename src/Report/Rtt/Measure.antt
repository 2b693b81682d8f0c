-- ===== src/Report/Rtt/Measure.antt =====
-- What `src/modules/dpi/report/tcp_rtt.c` measures between a segment and its acknowledgement, and
-- what it does with a retransmission.
use mmt_probe.Base.{
  ℕ, ◌≤◌, ◌<◌, ◌≡◌, ◌≢◌, refl, ap, List, [], ◌∷◌, some, ltb, ltb→lt, ◌==◌, if◌then◌else◌,
  Bool-cases, inl, inr, arith,
}
use mmt_probe.Report.Rtt.{
  Timeval, PktNode, TcpRtt, Direction, uplink, downlink, other, pkts, expected_ack,
  expected_ack_number, insert, renew, is_older, u_second_diff, remove_acked, acknowledge,
  tcp_rtt_add_packet,
}
use mmt_probe.Report.Rtt.Acks.{NoneWaits, tcp_rtt_add_packet_lem}

-- the later of two times, the first one of two that are equal
abbrev pub later : Timeval → Timeval → Timeval
later a b = if is_older a b then b else a

later_assoc : (a b c : Timeval) → later (later a b) c ≡ later a (later b c)
unfolding is_older
later_assoc a b c = ground arith

renew-renew : (t u : Timeval) (p : PktNode) → renew u (renew t p) ≡ renew (later t u) p
renew-renew t u p =
    ap (λ ts. record { seq_number = p.seq_number; data_len = p.data_len; timestamp = ts })
      (later_assoc p.timestamp t u)

module _ (seq len : ℕ) (u : Timeval) (p : PktNode) (l : List PktNode) where
  insert_pass :
      expected_ack seq len < expected_ack_number p
      → insert seq len u (p ∷ l) ≡ p ∷ insert seq len u l
  unfolding insert
  insert_pass h = ground arith

  insert_hit :
      expected_ack_number p ≡ expected_ack seq len → insert seq len u (p ∷ l) ≡ renew u p ∷ l
  unfolding insert
  insert_hit h = ground arith

  insert_place :
      expected_ack_number p < expected_ack seq len
      → insert seq len u (p ∷ l)
        ≡ record { seq_number = seq; data_len = len; timestamp = u } ∷ p ∷ l
  unfolding insert
  insert_place h = ground arith

-- Two transmissions of one segment leave the list that a single transmission at the later of the
-- two times leaves.
pub insert-insert :
    (seq len : ℕ) (t u : Timeval) (l : List PktNode)
    → insert seq len u (insert seq len t l) ≡ insert seq len (later t u) l
insert-insert seq len t u [] =
    unfold insert in
    insert_hit seq len u (record { seq_number = seq; data_len = len; timestamp = t }) [] refl
insert-insert seq len t u (p ∷ l) =
    elim (Bool-cases (ltb (expected_ack seq len) (expected_ack_number p))) [
      | inl e ↦
          let h = ltb→lt (expected_ack seq len) (expected_ack_number p) e in
          rw
            (
              insert_pass seq len t p l h,
              insert_pass seq len (later t u) p l h,
              insert_pass seq len u p (insert seq len t l) h,
            )
            (ap (◌∷◌ p) (insert-insert seq len t u l))
      | inr e ↦ elim (Bool-cases (expected_ack_number p == expected_ack seq len)) [
        | inl d ↦
            let h : expected_ack_number p ≡ expected_ack seq len = ground arith in
            rw
              (
                insert_hit seq len t p l h,
                insert_hit seq len (later t u) p l h,
                insert_hit seq len u (renew t p) l h,
              )
              (ap (λ q. q ∷ l) (renew-renew t u p))
        | inr d ↦
            let h : expected_ack_number p < expected_ack seq len = ground arith in
            rw (insert_place seq len t p l h, insert_place seq len (later t u) p l h)
              (insert_hit seq len u (record { seq_number = seq; data_len = len; timestamp = t })
                (p ∷ l) refl)
      ]
    ]

acknowledge-insert :
    (seq len : ℕ) (t u : Timeval) (l : List PktNode)
    → NoneWaits (expected_ack seq len) l
    → ((acknowledge (expected_ack seq len) u (insert seq len t l)).usec ≡ some (u_second_diff u t))
      × (1 ≤ (acknowledge (expected_ack seq len) u (insert seq len t l)).counter)
unfolding insert acknowledge remove_acked
acknowledge-insert seq len t u [] n = ground arith
acknowledge-insert seq len t u (p ∷ l) n = ground (arith, acknowledge-insert seq len t u l n.1)

step_two :
    (rtt : TcpRtt) (d : Direction) (ack seq len : ℕ) (u : Timeval)
    → ack ≢ 0
    → ((tcp_rtt_add_packet rtt (other d) ack seq len u).usec
        ≡ (acknowledge ack u (pkts rtt d)).usec)
      × ((tcp_rtt_add_packet rtt (other d) ack seq len u).counter
          ≡ (acknowledge ack u (pkts rtt d)).counter)
unfolding tcp_rtt_add_packet
step_two rtt uplink ack seq len u nz = ground arith
step_two rtt downlink ack seq len u nz = ground arith

-- When no segment of its direction waits for the number `expected_ack seq len`, not 0, a segment
-- sent at `t` and, as the next packet, one of the other direction at `u` that carries this number
-- measure the time between `t` and `u`, and the call returns at least one acknowledged packet.
pub acknowledged-measures :
    (rtt : TcpRtt) (direction : Direction) (ack seq len seq_b len_b : ℕ) (t u : Timeval)
    → NoneWaits (expected_ack seq len) (pkts rtt direction)
    → expected_ack seq len ≢ 0
    → ((tcp_rtt_add_packet
          (tcp_rtt_add_packet rtt direction ack seq len t).rtt
          (other direction)
          (expected_ack seq len)
          seq_b
          len_b
          u).usec
        ≡ some (u_second_diff u t))
      × (1
          ≤ (tcp_rtt_add_packet
              (tcp_rtt_add_packet rtt direction ack seq len t).rtt
              (other direction)
              (expected_ack seq len)
              seq_b
              len_b
              u).counter)
acknowledged-measures rtt direction ack seq len seq_b len_b t u n nz =
    let two =
      step_two (tcp_rtt_add_packet rtt direction ack seq len t).rtt direction (expected_ack seq len)
        seq_b len_b u nz in
    rw (two.0, two.1, (tcp_rtt_add_packet_lem rtt direction ack seq len t).0)
      (acknowledge-insert seq len t u (pkts rtt direction) n)
