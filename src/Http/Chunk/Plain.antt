-- ===== src/Http/Chunk/Plain.antt =====
-- The sums of `chunk_decode` in 32 bits, on memory of fewer than 2^31 bytes.
use mmt_probe.Base.{
  ℕ, suc, ◌+◌, ◌-◌, ◌%◌, ◌^◌, ◌≤◌, ◌<◌, ◌≡◌, refl, Option, ◌++◌, length, take, drop, ltb, ◌==◌,
  if◌then◌else◌, arith,
}
use mmt_probe.Base.Bytes.{Bytes}
use mmt_probe.Http.Chunk.{
  is_new_line, Decoded, finish, bad_format, fitting, get_chunk_size, chunk_loop,
}

pub fitting-le : (n j s : ℕ) → fitting n j s ≤ n - j
unfolding fitting
fitting-le n j s = ground arith

-- A turn of the loop with its sums unbounded.
abbrev pub plain_turn : (Bytes → ℕ × ℕ) → ℕ → Bytes → ℕ → ℕ → Bytes → Option Decoded
plain_turn strtol fuel input n j buffer =
    let at_line = j + (strtol (drop j input)).1 in
    let size = fitting n (at_line + 2) (get_chunk_size strtol (drop j input)).0 in
    let copied = buffer ++ take size (drop (at_line + 2) input) in
    let behind = at_line + 2 + size in
    let rest = chunk_loop strtol fuel input n (behind + 2) copied in
    if ltb j n
    then (if (get_chunk_size strtol (drop j input)).0 == 0
        then finish buffer
        else if ltb n (at_line + 2)
        then bad_format buffer
        else if is_new_line (drop at_line input)
        then (if ltb n (behind + 2)
            then finish copied
            else if is_new_line (drop behind input)
            then rest
            else finish copied)
        else bad_format buffer)
    else finish buffer

-- Where `strtol` takes no more than there is, no sum wraps.
pub chunk_loop-plain :
    (strtol : Bytes → ℕ × ℕ) (fuel : ℕ) (input : Bytes) (n j : ℕ) (buffer : Bytes)
    → length input < 2 ^ 31
    → n ≤ length input
    → j + (strtol (drop j input)).1 ≤ length input
    → chunk_loop strtol (suc fuel) input n j buffer ≡ plain_turn strtol fuel input n j buffer
unfolding chunk_loop get_chunk_size
chunk_loop-plain strtol fuel input n j buffer small inside taken =
    let used = (strtol (drop j input)).1 in
    let size = fitting n (j + used + 2) ((strtol (drop j input)).0 % 2 ^ 32) in
    let bound = fitting-le n (j + used + 2) ((strtol (drop j input)).0 % 2 ^ 32) in
    let a : used % 2 ^ 32 ≡ used = omega arith in
    let b : (j + used) % 2 ^ 32 ≡ j + used = omega arith in
    let c : (j + used + 2) % 2 ^ 32 ≡ j + used + 2 = omega arith in
    let d : (j + used + 2 + size) % 2 ^ 32 ≡ j + used + 2 + size = omega arith in
    let e : (j + used + 2 + size + 2) % 2 ^ 32 ≡ j + used + 2 + size + 2 = omega arith in
    rw (a, b, c, d, e) refl
