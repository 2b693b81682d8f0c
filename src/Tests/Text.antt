-- ===== src/Tests/Text.antt =====
-- The functions of `src/lib/string_builder.h` on small values.
use mmt_probe.Base.{
  ◌≡◌, List, [], ◌∷◌, ◌++◌, some, length, drop, replicate, leb, if◌then◌else◌, arith,
}
use mmt_probe.Base.Bytes.{Bytes, codes}
use mmt_probe.Text.Number.{append_number}
use mmt_probe.Text.Number.Correct.{IsDecimal, append_number_lem}
use mmt_probe.Text.Builder.{Element, int, str, time, ipv4, string_builder_with_separator}
use mmt_probe.Text.Builder.At.{at}
use mmt_probe.Text.Builder.Build.{joined, AllGood, string_builder_lem}
use mmt_probe.Report.Rtt.{Timeval}

abbrev buffer : Bytes
buffer = replicate 100 b'x'

append_number_lem_example :
    (s : Bytes) × IsDecimal s 2026
    × (append_number (b'x' ∷ b'x' ∷ b'x' ∷ b'x' ∷ b'x' ∷ []) 5 2026 ≡ (
        if leb (length s) 5
        then (length s, s ++ drop (length s) (b'x' ∷ b'x' ∷ b'x' ∷ b'x' ∷ b'x' ∷ []))
        else (0, b'x' ∷ b'x' ∷ b'x' ∷ b'x' ∷ b'x' ∷ [])))
append_number_lem_example =
    append_number_lem (b'x' ∷ b'x' ∷ b'x' ∷ b'x' ∷ b'x' ∷ []) 5 2026 (omega arith) (omega arith)

abbrev moment : Timeval
moment = record { tv_sec = 17; tv_usec = 4052 }

abbrev elements : List Element
elements = int 7 ∷ str (codes "eth0") ∷ time moment ∷ ipv4 (10 ∷ 0 ∷ 0 ∷ 1 ∷ []) ∷ []

elements-AllGood : AllGood elements
elements-AllGood = omega arith

string_builder_lem_example :
    string_builder_with_separator 1 (at (codes "[") buffer) 100 (codes ",") elements
    ≡ some (
      length (codes "[" ++ joined (codes ",") elements),
      at ((codes "[" ++ joined (codes ",") elements) ++ 0 ∷ []) buffer,
    )
string_builder_lem_example =
    string_builder_lem (codes "[") buffer 100 (codes ",") elements (omega arith) (omega arith)
      elements-AllGood
