-- ===== src/Dpi/Dump.antt =====
-- The dump of packets into files of pcap, src/modules/dpi/pcap_dump/pcap_dump.c. A file is its path
-- with the bytes that are written to it; the path that `snprintf` makes of the time, and whether
-- `fopen` succeeds, are arguments, and each `fwrite` is complete.
pub mod Format
pub mod Held
pub mod Paths
pub mod Records
use mmt_probe.Base.{
  ℕ, zero, suc, ◌+◌, ◌-◌, ◌*◌, ◌/◌, ◌%◌, ◌^◌, min, Bool, true, false, ◌||◌, ◌&&◌, List, [], ◌∷◌,
  ◌++◌, Option, none, some, length, take, drop, ltb, ◌==◌, if◌then◌else◌,
}
use mmt_probe.Base.Bytes.{Bytes, eq_bytes, le16, le32}
use mmt_probe.Report.Rtt.{Timeval}

-- What is used of a packet; `bytes` are the bytes that it has.
pub record Captured : Type 0 where
  pub ts : Timeval
  pub caplen : ℕ
  pub len : ℕ
  pub proto_path : List ℕ
  pub bytes : Bytes

-- `pcap_dump_context_t` with what is used of its configuration, and the files that it has closed, the
-- last one first
pub record Dump : Type 0 where
  pub file : Option (Bytes × Bytes)
  pub finished : List (Bytes × Bytes)
  pub next_ts_to_dump_to_new_file : ℕ
  pub proto_ids_lst : List ℕ
  pub stack_type : ℕ
  pub frequency : ℕ
  pub snap_len : ℕ

-- the header that `_create_pcap_file` writes, with its argument `snaplen` of `uint16_t`: magic, version
-- 2.4, time zone, accuracy, length, type
abbrev pub file_header : ℕ → ℕ → Bytes
file_header snaplen linktype =
    le32 2712847316
    ++ (le16 2 ++ (le16 4 ++ (le32 0 ++ (le32 0 ++ (le32 (snaplen % 2 ^ 16) ++ le32 linktype)))))

-- `_write_packet`, with its arguments of `uint16_t`
abbrev pub write_packet : Bytes → ℕ → ℕ → Timeval → Bytes
write_packet buf len caplen tv =
    le32 tv.tv_sec
    ++ (le32 tv.tv_usec
        ++ (le32 (caplen % 2 ^ 16) ++ (le32 (len % 2 ^ 16) ++ take (caplen % 2 ^ 16) buf)))

-- does a protocol stand in the hierarchy? The loop goes down to index 2.
abbrev pub has_proto : ℕ → List ℕ → Bool
has_proto proto [] = false
has_proto proto (p ∷ path) = p == proto || has_proto proto path

pub is_dumped : List ℕ → List ℕ → Bool
is_dumped [] path = false
is_dumped (proto ∷ protos) path = has_proto proto (drop 2 path) || is_dumped protos path

abbrev pub close : Option (Bytes × Bytes) → List (Bytes × Bytes) → List (Bytes × Bytes)
close none finished = finished
close (some f) finished = f ∷ finished

-- what `fopen( path, "w" )` leaves of the files: one with the same path is truncated.
unfoldable pub without : Bytes → List (Bytes × Bytes) → List (Bytes × Bytes)
without path [] = []
without path (f ∷ fs) = if eq_bytes f.0 path then without path fs else f ∷ without path fs

-- "found one protocol, check periodically"
abbrev pub is_due : Dump → Captured → Bool
is_due d p = elim d.file [ none ↦ true | some f ↦ ltb d.next_ts_to_dump_to_new_file p.ts.tv_sec ]

module _ (path_of : ℕ → Bytes) where
  -- "open new file"
  pub new_file : Bool → Captured → Dump → Dump
  new_file opens p d =
      if opens
      then record d {
        file = some (path_of p.ts.tv_sec, file_header d.snap_len d.stack_type);
        finished = without (path_of p.ts.tv_sec) (close d.file d.finished);
        next_ts_to_dump_to_new_file = (p.ts.tv_sec + d.frequency) % 2 ^ 32;
      }
      else record d { file = none; finished = close d.file d.finished }

  pub write_to : Captured → Dump → Dump
  write_to p d = elim d.file [
    | none ↦ d
    | some (path, contents) ↦ record d {
      file = some (path, contents ++ write_packet p.bytes p.len (min p.caplen d.snap_len) p.ts);
    }
  ]

  -- `pcap_dump_callback_on_receiving_packet`
  pub on_packet : Bool → Captured → Dump → Dump
  unfolding new_file write_to
  on_packet opens p d =
      if is_dumped d.proto_ids_lst p.proto_path
      then write_to p (if is_due d p then new_file opens p d else d)
      else d

-- `pcap_dump_start`, of an enabled dump
abbrev pub pcap_dump_start : List ℕ → ℕ → ℕ → ℕ → Dump
pcap_dump_start protos stack_type frequency snap_len = record {
  file = none;
  finished = [];
  next_ts_to_dump_to_new_file = 0;
  proto_ids_lst = protos;
  stack_type = stack_type;
  frequency = frequency;
  snap_len = snap_len;
}

-- `pcap_dump_stop`: the files, the last one first
abbrev pub pcap_dump_stop : Dump → List (Bytes × Bytes)
pcap_dump_stop d = close d.file d.finished
