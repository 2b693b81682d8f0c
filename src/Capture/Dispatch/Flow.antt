-- ===== src/Capture/Dispatch/Flow.antt =====
-- The two directions of a flow, in the hash function of
-- src/modules/packet_capture/pcap/pcap_capture.c.
use mmt_probe.Base.{
  ℕ, ◌+◌, ◌-◌, ◌≤◌, ◌<◌, ◌≡◌, refl, sym, ◌∙◌, true, none, some, length, get_or, Bool-cases, inl,
  inr, le→ltb, lt→ltb, arith,
}
use mmt_probe.Base.Words.{or_bits_comm}
use mmt_probe.Base.Bytes.{Bytes, read16}
use mmt_probe.Capture.Dispatch.{
  read32, has_ports, hash_at, hash_of_offset, ip_offset_of, get_packet_hash_number,
}

-- A packet has an IP header without options behind its Ethernet header, from byte 14 on with the
-- type 0x0800, or behind a VLAN tag with the type 0x8100, from byte 18 on. With the type's bytes in the
-- order of the wire, `read16` is the number that the code compares.
pub data HasIp (p : Bytes) : ℕ → Type 0 where
  untagged : read16 p 12 ≡ 8 → get_or p 14 0 ≡ 69 → HasIp p 14
  tagged : read16 p 12 ≡ 129 → read16 p 16 ≡ 8 → get_or p 18 0 ≡ 69 → HasIp p 18

-- `q` is a packet in the direction against `p`: of the same protocol, with the addresses at bytes 12
-- and 16 of the header at `ip` swapped, and the ports in the first four bytes behind the header too.
-- The packets have these bytes, and lengths of their own.
pub record Against (p q : Bytes) (ip : ℕ) : Type 0 where
  pub has_ip : HasIp p ip
  pub has_ip' : HasIp q ip
  pub enough : ip + 24 ≤ length p
  pub enough' : ip + 24 ≤ length q
  pub same_protocol : get_or q (ip + 9) 0 ≡ get_or p (ip + 9) 0
  pub ip_src : read32 q (ip + 12) ≡ read32 p (ip + 16)
  pub ip_dst : read32 q (ip + 16) ≡ read32 p (ip + 12)
  pub port_src : read16 q (ip + 20) ≡ read16 p (ip + 22)
  pub port_dst : read16 q (ip + 22) ≡ read16 p (ip + 20)

hash_at-same :
    (p q : Bytes) (o : ℕ)
    → o + 12 ≤ length p
    → o + 12 ≤ length q
    → get_or q (o - 3) 0 ≡ get_or p (o - 3) 0
    → read32 q o ≡ read32 p (o + 4)
    → read32 q (o + 4) ≡ read32 p o
    → read16 q (o + 8) ≡ read16 p (o + 10)
    → read16 q (o + 10) ≡ read16 p (o + 8)
    → hash_at q o ≡ hash_at p o
unfolding hash_at
hash_at-same p q o k l proto src dst port_src port_dst =
    rw
      (
        le→ltb (length p) (o + 12) k,
        le→ltb (length q) (o + 12) l,
        proto,
        src,
        dst,
        port_src,
        port_dst,
        or_bits_comm 32 (read32 p (o + 4)) (read32 p o),
      )
      (elim (Bool-cases (has_ports p o)) [
        | inl e ↦ rw (e, or_bits_comm 32 (read16 p (o + 10)) (read16 p (o + 8))) refl
        | inr e ↦ rw e refl
      ])

hash_of-HasIp :
    (p : Bytes) (ip : ℕ)
    → HasIp p ip
    → ip + 24 ≤ length p
    → get_packet_hash_number p ≡ hash_at p (ip + 12)
unfolding get_packet_hash_number hash_of_offset ip_offset_of
hash_of-HasIp p _ (untagged t v) k = rw (le→ltb (length p) 38 (omega arith), t) refl
hash_of-HasIp p _ (tagged t u v) k = rw (le→ltb (length p) 38 (omega arith), t) refl

HasIp-le : (p : Bytes) (ip : ℕ) → HasIp p ip → 14 ≤ ip
HasIp-le p _ (untagged t v) = omega arith
HasIp-le p _ (tagged t u v) = omega arith

-- The packets of the two directions of a flow of TCP or UDP over IP, behind an Ethernet header with a
-- VLAN tag or without, whose IP headers have no options and of which the ports are captured, get the
-- same hash number, whatever their lengths and the rest of their bytes are.
pub get_packet_hash_number-Against :
    (p q : Bytes) (ip : ℕ) → Against p q ip → get_packet_hash_number q ≡ get_packet_hash_number p
get_packet_hash_number-Against p q ip a =
    hash_of-HasIp q ip a.has_ip' a.enough'
    ∙ shifted (HasIp-le p ip a.has_ip)
    ∙ sym (hash_of-HasIp p ip a.has_ip a.enough)
  where
    shifted : 14 ≤ ip → hash_at q (ip + 12) ≡ hash_at p (ip + 12)
    shifted h =
        let e : ip + 12 - 3 ≡ ip + 9 = omega arith in
        let e4 : ip + 12 + 4 ≡ ip + 16 = omega arith in
        let e8 : ip + 12 + 8 ≡ ip + 20 = omega arith in
        let e10 : ip + 12 + 10 ≡ ip + 22 = omega arith in
        hash_at-same p q (ip + 12) (omega (arith, a.enough)) (omega (arith, a.enough'))
          (rw e a.same_protocol) (rw e4 a.ip_src) (rw e4 a.ip_dst) (rw (e8, e10) a.port_src)
          (rw (e8, e10) a.port_dst)

-- Of a packet of TCP or UDP with a VLAN tag that is captured with 38 to 41 bytes, the ports are read
-- behind its end.
pub get_packet_hash_number-overreads :
    (p : Bytes)
    → ip_offset_of p ≡ some 30
    → has_ports p 30 ≡ true
    → 38 ≤ length p
    → length p < 42
    → get_packet_hash_number p ≡ none
unfolding get_packet_hash_number hash_of_offset hash_at
get_packet_hash_number-overreads p e h a b =
    rw (le→ltb (length p) 38 (omega arith), e, h, lt→ltb (length p) 42 b) refl
