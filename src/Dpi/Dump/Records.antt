-- ===== src/Dpi/Dump/Records.antt =====
-- What a reader finds in the files of src/modules/dpi/pcap_dump/pcap_dump.c.
use mmt_probe.Base.{
  ℕ, ◌+◌, ◌≤◌, ◌<◌, ◌%◌, ◌^◌, true, List, [], ◌∷◌, ◌++◌, Option, some, length, min, take,
  if◌then◌else◌, ◌>>=◌,
}
use mmt_probe.Base.Bytes.{Bytes}
use mmt_probe.Dpi.Dump.{Captured, Dump, is_dumped, on_packet}
use mmt_probe.Dpi.Dump.Format.{PcapRecord, Call, read_pcap}
use mmt_probe.Dpi.Dump.Held.{arguments_of}

-- what a reader has to find of a packet
abbrev pub record_of_packet : ℕ → Captured → PcapRecord
record_of_packet snap p = record {
  ts_sec = p.ts.tv_sec % 2 ^ 32;
  ts_usec = p.ts.tv_usec % 2 ^ 32;
  orig_len = p.len % 2 ^ 16;
  packet = take (min p.caplen snap) p.bytes;
}

-- of the packets of a protocol that is dumped
abbrev pub records_meant : List ℕ → ℕ → List Captured → List PcapRecord
records_meant protos snap [] = []
records_meant protos snap (p ∷ ps) =
    if is_dumped protos p.proto_path
    then record_of_packet snap p ∷ records_meant protos snap ps
    else records_meant protos snap ps

abbrev kept : List ℕ → ℕ → List Captured → List Call
kept protos snap [] = []
kept protos snap (p ∷ ps) =
    (if is_dumped protos p.proto_path then arguments_of snap p ∷ [] else []) ++ kept protos snap ps

-- The bytes of a packet are there, and the time of the next file does not wrap.
abbrev pub AllCaught : ℕ → List Captured → Type 0
AllCaught frequency [] = Unit {0}
AllCaught frequency (p ∷ ps) =
    (p.caplen ≤ length p.bytes) × (p.ts.tv_sec + frequency < 2 ^ 32) × AllCaught frequency ps

abbrev pub dump_all : (ℕ → Bytes) → List Captured → Dump → Dump
dump_all path_of [] d = d
dump_all path_of (p ∷ ps) d = dump_all path_of ps (on_packet path_of true p d)

-- the packets that the files hold, in the order in which the files were written
abbrev pub records_of : List (Bytes × Bytes) → Option (List PcapRecord)
records_of [] = some []
records_of (f ∷ fs) = do before ← records_of fs; records ← read_pcap f.1; some (before ++ records)
