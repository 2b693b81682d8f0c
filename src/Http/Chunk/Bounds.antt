-- ===== src/Http/Chunk/Bounds.antt =====
-- The loop of `chunk_decode` on any data, and the space that it takes in the buffer.
use mmt_probe.Base.{
  ℕ, zero, suc, ◌+◌, ◌^◌, ◌≤◌, ◌<◌, ◌≡◌, refl, Bool, true, false, [], ◌++◌, Option, some, length,
  length-append, length-drop, length-take, take, drop, ltb, ◌==◌, if◌then◌else◌, arith,
}
use mmt_probe.Base.Bytes.{Bytes}
use mmt_probe.Http.Chunk.{
  is_new_line, Decoded, finish, bad_format, fitting, get_chunk_size, chunk_loop, chunk_decode,
}
use mmt_probe.Http.Chunk.Plain.{fitting-le, chunk_loop-plain}

-- The function returns, the buffer holds no more bytes than the input has, and the value that it
-- returns is the number of these bytes or 0.
pub record IsBounded (data_len : ℕ) (o : Option Decoded) : Type 0 where
  pub result : Decoded
  pub returns : o ≡ some result
  pub fits : length result.1 ≤ data_len
  pub counts : result.0 ≤ length result.1

finish-IsBounded : (n : ℕ) (b : Bytes) → length b ≤ n → IsBounded n (finish b)
finish-IsBounded n b h = record {
  result = (length b, b);
  returns = refl;
  fits = h;
  counts = omega arith;
}

bad_format-IsBounded : (n : ℕ) (b : Bytes) → length b ≤ n → IsBounded n (bad_format b)
bad_format-IsBounded n b h = record {
  result = (0, b);
  returns = refl;
  fits = h;
  counts = omega arith;
}

pick :
    (n : ℕ) (t : Bool) (x y : Option Decoded)
    → (t ≡ true → IsBounded n x)
    → (t ≡ false → IsBounded n y)
    → IsBounded n (if t then x else y)
pick n true x y f g = f refl
pick n false x y f g = g refl

chunk_loop-IsBounded :
    (strtol : Bytes → ℕ × ℕ) (fuel : ℕ) (input : Bytes) (n j : ℕ) (buffer : Bytes)
    → length buffer ≤ j
    → length buffer ≤ n
    → n < fuel + j
    → 1 ≤ fuel
    → length input < 2 ^ 31
    → n ≤ length input
    → j ≤ length input
    → ((m : Bytes) → (strtol m).1 ≤ length m)
    → IsBounded n (chunk_loop strtol fuel input n j buffer)
chunk_loop-IsBounded strtol zero input n j buffer h k l one small inside at takes =
    absurd (omega arith)
chunk_loop-IsBounded strtol (suc fuel) input n j buffer h k l one small inside at takes =
    let at_line = j + (strtol (drop j input)).1 in
    let taken : at_line ≤ length input = omega (arith, takes (drop j input), length-drop j input) in
    let size = fitting n (at_line + 2) (get_chunk_size strtol (drop j input)).0 in
    let piece = take size (drop (at_line + 2) input) in
    let copied = buffer ++ piece in
    let behind = at_line + 2 + size in
    let a = length-append buffer piece in
    let b = length-take size (drop (at_line + 2) input) in
    let c = fitting-le n (at_line + 2) (get_chunk_size strtol (drop j input)).0 in
    rw (chunk_loop-plain strtol fuel input n j buffer small inside taken) (
      pick n (ltb j n) _ (finish buffer)
        (λ e.
          pick n ((get_chunk_size strtol (drop j input)).0 == 0) (finish buffer) _
            (λ _. finish-IsBounded n buffer k)
            (λ _.
              pick n (ltb n (at_line + 2)) (bad_format buffer) _
                (λ _. bad_format-IsBounded n buffer k)
                (λ room.
                  pick n (is_new_line (drop at_line input)) _ (bad_format buffer)
                    (λ _.
                      pick n (ltb n (behind + 2)) (finish copied) _
                        (λ _. finish-IsBounded n copied (ground arith))
                        (λ more.
                          pick n (is_new_line (drop behind input)) _ (finish copied)
                            (λ _.
                              chunk_loop-IsBounded strtol fuel input n (behind + 2) copied
                                (ground arith) (ground arith) (ground arith) (ground arith) small
                                inside (ground arith) takes)
                            (λ _. finish-IsBounded n copied (ground arith))))
                    (λ _. bad_format-IsBounded n buffer k))))
        (λ _. finish-IsBounded n buffer k))

-- On any memory of fewer than 2^31 bytes of which `data_len` are given, whatever `strtol` reads in it,
-- as long as it takes no bytes behind the memory: `chunk_decode` returns, writes at most `data_len`
-- bytes to the buffer, and returns no more than it has written.
pub chunk_decode-IsBounded :
    (strtol : Bytes → ℕ × ℕ) (input : Bytes) (data_len : ℕ)
    → length input < 2 ^ 31
    → data_len ≤ length input
    → ((m : Bytes) → (strtol m).1 ≤ length m)
    → IsBounded data_len (chunk_decode strtol input data_len)
chunk_decode-IsBounded strtol input data_len small inside takes =
    chunk_loop-IsBounded strtol (suc data_len) input data_len 0 [] (omega arith) (omega arith)
      (omega arith) (omega arith) small inside (omega arith) takes
