-- ===== src/Dpi/Dump/Format.antt =====
-- The format of pcap, as a reader takes it: see https://wiki.wireshark.org/Development/LibpcapFileFormat,
-- which src/modules/dpi/pcap_dump/pcap_dump.c names.
use mmt_probe.Base.{
  map, true, ℕ, zero, suc, ◌+◌, ◌*◌, ◌/◌, ◌%◌, ◌^◌, ◌≤◌, ◌<◌, ◌≡◌, refl, ap, ◌∙◌, List, [], ◌∷◌,
  ◌++◌, Option, none, some, length, length-append, length-take, take, drop, leb, if◌then◌else◌,
  ◌>>=◌, ◌&&◌, arith,
}
use mmt_probe.Base.Bytes.{Bytes, le16, le32, eq_bytes, drop-append}
use mmt_probe.Report.Rtt.{Timeval}
use mmt_probe.Dpi.Dump.{file_header, write_packet}

abbrev pub word : ℕ → ℕ → ℕ → ℕ → ℕ
word a b c d = a + 256 * (b + 256 * (c + 256 * d))

-- a packet in a file: its time, its length on the wire, and its bytes
pub record PcapRecord : Type 0 where
  pub ts_sec : ℕ
  pub ts_usec : ℕ
  pub orig_len : ℕ
  pub packet : Bytes

-- the packets behind the header of a file
unfoldable pub read_records : ℕ → Bytes → Option (List PcapRecord)
read_records zero m = none
read_records (suc fuel) [] = some []
read_records (suc fuel)
      (s0 ∷ s1 ∷ s2 ∷ s3 ∷ u0 ∷ u1 ∷ u2 ∷ u3 ∷ c0 ∷ c1 ∷ c2 ∷ c3 ∷ l0 ∷ l1 ∷ l2 ∷ l3 ∷ m) =
    let incl_len = word c0 c1 c2 c3 in
    let rest = read_records fuel (drop incl_len m) in
    if leb incl_len (length m)
    then (do
      records ← rest
      some (
          record {
            ts_sec = word s0 s1 s2 s3;
            ts_usec = word u0 u1 u2 u3;
            orig_len = word l0 l1 l2 l3;
            packet = take incl_len m;
          }
          ∷ records))
    else none
read_records (suc fuel) _ = none

-- a file of the version, the byte order and the resolution that the header names
unfoldable pub read_pcap : Bytes → Option (List PcapRecord)
unfolding read_records
read_pcap m =
    if eq_bytes (take 8 m) (le32 2712847316 ++ (le16 2 ++ le16 4)) && leb 24 (length m)
    then read_records (length m) (drop 24 m)
    else none

-- what a reader finds of a packet that is written with the arguments
abbrev pub record_of : Bytes → ℕ → ℕ → Timeval → PcapRecord
record_of buf len caplen tv = record {
  ts_sec = tv.tv_sec % 2 ^ 32;
  ts_usec = tv.tv_usec % 2 ^ 32;
  orig_len = len % 2 ^ 16;
  packet = take (caplen % 2 ^ 16) buf;
}

word-le32 :
    (n : ℕ) → word (n % 256) (n / 256 % 256) (n / 65536 % 256) (n / 16777216 % 256) ≡ n % 2 ^ 32
word-le32 n = omega arith

-- the arguments of `_write_packet` for one packet
pub record Call : Type 0 where
  pub buf : Bytes
  pub len : ℕ
  pub caplen : ℕ
  pub tv : Timeval

abbrev pub written : Call → Bytes
written c = write_packet c.buf c.len c.caplen c.tv

abbrev pub found : Call → PcapRecord
found c = record_of c.buf c.len c.caplen c.tv

take-front : (part m : Bytes) (n : ℕ) → n ≡ length part → take n (part ++ m) ≡ part
take-front [] m zero e = refl
take-front [] m (suc n) e = absurd (omega arith)
take-front (x ∷ part) m zero e = absurd (omega arith)
take-front (x ∷ part) m (suc n) e = ap (λ l. x ∷ l) (take-front part m n (omega arith))

read_one :
    (fuel sec usec n len : ℕ) (part m : Bytes)
    → n ≡ length part
    → n < 2 ^ 32
    → read_records (suc fuel) ((le32 sec ++ (le32 usec ++ (le32 n ++ (le32 len ++ part)))) ++ m)
      ≡ (do
        rs ← read_records fuel m
        some (
            record {
              ts_sec = sec % 2 ^ 32;
              ts_usec = usec % 2 ^ 32;
              orig_len = len % 2 ^ 32;
              packet = part;
            }
            ∷ rs))
unfolding read_records
read_one fuel sec usec n len part m e small =
    let w : word (n % 256) (n / 256 % 256) (n / 65536 % 256) (n / 16777216 % 256) ≡ n =
      word-le32 n ∙ omega arith in
    let enough : leb n (length (part ++ m)) ≡ true = ground (arith, length-append part m) in
    rw
      (
        w,
        enough,
        drop-append part m n e,
        take-front part m n e,
        word-le32 sec,
        word-le32 usec,
        word-le32 len,
      )
      refl

-- A packet at the front of a file is read as it was written.
pub read_records-write_packet :
    (fuel : ℕ) (c : Call) (m : Bytes)
    → c.caplen % 2 ^ 16 ≤ length c.buf
    → read_records (suc fuel) (written c ++ m) ≡ (do rs ← read_records fuel m; some (found c ∷ rs))
read_records-write_packet fuel c m h =
    let n = c.caplen % 2 ^ 16 in
    let size : n ≡ length (take n c.buf) = omega (arith, length-take n c.buf) in
    let short : c.len % 2 ^ 16 % 2 ^ 32 ≡ c.len % 2 ^ 16 = omega arith in
    rw
      (
        read_one fuel c.tv.tv_sec c.tv.tv_usec n (c.len % 2 ^ 16) (take n c.buf) m size
            (omega arith),
        short,
      )
      refl

-- the packets of a file behind each other
abbrev pub all_written : List Call → Bytes
all_written [] = []
all_written (c ∷ cs) = written c ++ all_written cs

abbrev pub AllFit : List Call → Type 0
AllFit [] = Unit {0}
AllFit (c ∷ cs) = (c.caplen % 2 ^ 16 ≤ length c.buf) × AllFit cs

read_all :
    (cs : List Call) (fuel : ℕ)
    → AllFit cs
    → length cs < fuel
    → read_records fuel (all_written cs) ≡ some (map found cs)
unfolding read_records
read_all [] zero h f = absurd (omega arith)
read_all [] (suc fuel) h f = refl
read_all (c ∷ cs) zero h f = absurd (omega arith)
read_all (c ∷ cs) (suc fuel) (h, k) f =
    read_records-write_packet fuel c (all_written cs) h
    ∙ ap (λ r. do rs ← r; some (found c ∷ rs)) (read_all cs fuel k (omega arith))

length-all_written : (cs : List Call) → length cs ≤ length (all_written cs)
length-all_written [] = omega arith
length-all_written (c ∷ cs) =
    omega (arith, length-all_written cs, length-append (written c) (all_written cs))

abbrev pub file_of : ℕ → ℕ → List Call → Bytes
file_of snap stack cs = file_header snap stack ++ all_written cs

pub read_file :
    (snap stack : ℕ) (cs : List Call)
    → AllFit cs
    → read_pcap (file_of snap stack cs) ≡ some (map found cs)
unfolding read_pcap eq_bytes
read_file snap stack cs h =
    let size = length-append (file_header snap stack) (all_written cs) in
    let enough : leb 24 (length (file_of snap stack cs)) ≡ true = ground (arith, size) in
    rw enough
      (read_all cs (length (file_of snap stack cs)) h (omega (arith, size, length-all_written cs)))
