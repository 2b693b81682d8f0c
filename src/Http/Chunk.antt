-- ===== src/Http/Chunk.antt =====
-- `chunk_decode` of `src/modules/dpi/reconstruct/http/decode.c`. The input is the memory from the
-- pointer `data` on, and the buffer is what is written to it so far, so that its length is
-- `index`. `strtol` of the C library is a parameter: the value that it reads in base 16 at the
-- front of a memory, and how many bytes it takes.
pub mod Bounds
pub mod Plain
pub mod RoundTrip
use mmt_probe.Base.{
  ℕ, zero, suc, ◌+◌, ◌-◌, ◌%◌, ◌^◌, Bool, ◌&&◌, List, [], ◌∷◌, ◌++◌, Option, none, some, length,
  take, drop, get_or, ltb, ◌==◌, if◌then◌else◌,
}
use mmt_probe.Base.Bytes.{Bytes}
use mmt_probe.Base.Words.{add32}

pub is_new_line : Bytes → Bool
is_new_line input = get_or input 0 0 == b'\r' && get_or input 1 0 == b'\n'

-- what the function returns, and what it has written to the buffer
abbrev pub Decoded : Type 0
Decoded = ℕ × Bytes

-- `_chunk_not_finish`, and the end of the loop
abbrev pub finish : Bytes → Option Decoded
finish buffer = some (length buffer, buffer)

-- `_bad_format`
abbrev pub bad_format : Bytes → Option Decoded
bad_format buffer = some (0, buffer)

-- The size of a chunk is cut off at the end of the input.
pub fitting : ℕ → ℕ → ℕ → ℕ
fitting data_len j chunk_size = if ltb (data_len - j) chunk_size then data_len - j else chunk_size

-- `_get_chunk_size`: the size and the bytes taken, both `uint32_t`
pub get_chunk_size : (Bytes → ℕ × ℕ) → Bytes → ℕ × ℕ
get_chunk_size strtol input = let (val, used) = strtol input in (val % 2 ^ 32, used % 2 ^ 32)

-- The loop at position `j`, a `uint32_t`, on fuel: where no sum wraps, each turn that is followed by
-- another one takes two bytes at least. `none`: out of fuel. What `index`, an `int`, does from 2^31
-- bytes in the buffer on is not defined in C, and the theorems have fewer.
pub chunk_loop : (Bytes → ℕ × ℕ) → ℕ → Bytes → ℕ → ℕ → Bytes → Option Decoded
chunk_loop strtol zero input data_len j buffer = none
chunk_loop strtol (suc fuel) input data_len j buffer =
    let chunk_size = (get_chunk_size strtol (drop j input)).0 in
    let at_line = add32 j (get_chunk_size strtol (drop j input)).1 in
    let start = add32 at_line 2 in
    let size = fitting data_len start chunk_size in
    let copied = buffer ++ take size (drop start input) in
    let behind = add32 start size in
    let next = add32 behind 2 in
    let rest = chunk_loop strtol fuel input data_len next copied in
    if ltb j data_len
    then (if chunk_size == 0
        then finish buffer
        else if ltb data_len start
        then bad_format buffer
        else if is_new_line (drop at_line input)
        then (if ltb data_len next
            then finish copied
            else if is_new_line (drop behind input)
            then rest
            else finish copied)
        else bad_format buffer)
    else finish buffer

abbrev pub chunk_decode : (Bytes → ℕ × ℕ) → Bytes → ℕ → Option Decoded
chunk_decode strtol input data_len = chunk_loop strtol (suc data_len) input data_len 0 []
