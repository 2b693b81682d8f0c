-- ===== src/Tests/Update.antt =====
-- An update command of `src/modules/dynamic_conf/server.c`, and a body in the chunked coding.
use mmt_probe.Base.{
  ℕ, ◌-◌, ◌≤◌, ◌≡◌, inl, refl, List, [], ◌∷◌, ◌++◌, some, length, map, false, arith,
}
use mmt_probe.Base.Bytes.{Bytes, codes, eq_bytes}
use mmt_probe.Config.{Identity, uint16, bool, identity_from_string}
use mmt_probe.Config.Validate.{validate-number}
use mmt_probe.Dynamic.Update.{
  stored, is_unsupported, parse_update_parameters, parse_command_parameters,
}
use mmt_probe.Dynamic.Update.Decode.{setting_of}
use mmt_probe.Dynamic.Update.Encode.{Line, AllGood}
use mmt_probe.Dynamic.Update.RoundTrip.{command-settings}
use mmt_probe.Http.Chunk.{chunk_decode}
use mmt_probe.Http.Chunk.Bounds.{IsBounded, chunk_decode-IsBounded}
use mmt_probe.Http.Chunk.RoundTrip.{Chunk, encode_chunks, AllRead, chunk_decode-encode}

abbrev probe_id : Identity
probe_id = record { val = 1; data_type = uint16; ident = codes "probe-id" }

abbrev table : List Identity
table = probe_id ∷ record { val = 2; data_type = bool; ident = codes "enable" } ∷ []

abbrev line : Line
line = record { identity = probe_id; value = codes "12" }

line_found : identity_from_string table (codes "probe-id") ≡ some probe_id
unfolding identity_from_string eq_bytes
line_found = refl

line_supported : is_unsupported uint16 ≡ false
unfolding is_unsupported
line_supported = refl

line-AllGood : AllGood table 3 100 (line ∷ [])
line-AllGood = (
  record {
    found = line_found;
    supported = line_supported;
    no_equals = omega arith;
    name_line = omega arith;
    name_string = omega arith;
    value_line = omega arith;
    has_value = cc;
    accepted = validate-number 3 probe_id (codes "12") (omega arith) (inl refl);
  },
  omega arith,
)

command-settings_example :
    (bytes : Bytes) × (parse_update_parameters table 3 100
        (codes "{\nprobe-id=12\n}" ++ 0 ∷ 0 ∷ [])
        16
      ≡ stored bytes)
    × (map
          (setting_of (bytes ++ 9 ∷ []))
          (parse_command_parameters (bytes ++ 9 ∷ []) (length bytes) 2)
        ≡ record { val = 1; value = codes "12" } ∷ [])
command-settings_example =
    command-settings table 3 100 line [] (0 ∷ []) (9 ∷ []) 2 line-AllGood (omega arith)
      (omega arith) (omega arith)

-- a `strtol` for numbers of one digit below 10
abbrev one_digit : Bytes → ℕ × ℕ
one_digit [] = (0, 0)
one_digit (c ∷ m) = (c - b'0', 1)

abbrev chunks : List Chunk
chunks =
    record { size_text = codes "3"; content = codes "abc" }
    ∷ record { size_text = codes "2"; content = codes "de" }
    ∷ []

chunks-AllRead : AllRead one_digit chunks
chunks-AllRead =
    (omega arith, omega arith, λ rest. refl, (omega arith, omega arith, λ rest. refl, omega arith))

chunk_decode-encode_example :
    chunk_decode one_digit (codes "3\r\nabc\r\n2\r\nde\r\n0\r\n") 18 ≡ some (5, codes "abcde")
unfolding encode_chunks
chunk_decode-encode_example =
    chunk_decode-encode one_digit (codes "0") chunks (λ rest. refl) chunks-AllRead (omega arith)

one_digit_takes : (m : Bytes) → (one_digit m).1 ≤ length m
one_digit_takes [] = omega arith
one_digit_takes (c ∷ m) = omega arith

chunk_decode-IsBounded_example : IsBounded 4 (chunk_decode one_digit (codes "9\r\nabc") 4)
chunk_decode-IsBounded_example =
    chunk_decode-IsBounded one_digit (codes "9\r\nabc") 4 (omega arith) (omega arith)
      one_digit_takes
