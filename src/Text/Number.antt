-- ===== src/Text/Number.antt =====
-- `append_number` of src/lib/string_builder.h. `dst` is the memory from the pointer `dst` on; the
-- result is what the function returns and that memory as it leaves it. The pointer `c` of the
-- source is kept as the index behind it, which does not fall below 0.
pub mod Size
pub mod Write
pub mod Correct
use mmt_probe.Base.{
  ℕ, zero, suc, ◌+◌, ◌-◌, ◌*◌, ◌/◌, ◌%◌, ◌^◌, Bool, true, false, ◌&&◌, List, [], ◌∷◌, length,
  get_or, set, ltb, leb, if◌then◌else◌,
}
use mmt_probe.Base.Bytes.{Bytes, codes}

pub digit_pairs : Bytes
digit_pairs =
    codes
      "00010203040506070809101112131415161718192021222324252627282930313233343536373839404142434445464748495051525354555657585960616263646566676869707172737475767778798081828384858687888990919293949596979899"

-- "get number of digits", for a value that is not below 10; the constants M3 to M20.
unfoldable pub size_of : ℕ → ℕ
size_of val =
    if leb (10 ^ 3) val
    then (if leb (10 ^ 5) val
        then (if leb (10 ^ 7) val
            then (if leb (10 ^ 9) val
                then (if leb (10 ^ 11) val
                    then (if leb (10 ^ 13) val
                        then (if leb (10 ^ 15) val
                            then (if leb (10 ^ 17) val
                                then (if leb (10 ^ 19) val
                                    then 20
                                    else if leb (10 ^ 18) val
                                    then 19
                                    else 18)
                                else (if leb (10 ^ 16) val then 17 else 16))
                            else (if leb (10 ^ 14) val then 15 else 14))
                        else (if leb (10 ^ 12) val then 13 else 12))
                    else (if leb (10 ^ 10) val then 11 else 10))
                else (if leb (10 ^ 8) val then 9 else 8))
            else (if leb (10 ^ 6) val then 7 else 6))
        else (if leb (10 ^ 4) val then 5 else 4))
    else (if leb (10 ^ 2) val then 3 else 2)

-- The two digits at `digit_pairs + 2 * pos` go to `c-1` and `c`.
pub write_pair : Bytes → ℕ → ℕ → Bytes
write_pair dst end pos =
    set (set dst (end - 2) (get_or digit_pairs (2 * pos) 0)) (end - 1)
      (get_or digit_pairs (2 * pos + 1) 0)

-- `while( val >= 100 )`, on fuel: the value that is left, the index and the memory.
pub write_pairs : ℕ → Bytes → ℕ → ℕ → Bytes × ℕ × ℕ
write_pairs zero dst end val = (dst, end, val)
write_pairs (suc fuel) dst end val =
    let rest = write_pairs fuel (write_pair dst end (val % 100)) (end - 2) (val / 100) in
    if leb 100 val then rest else (dst, end, val)

-- `while( val > 0 )`, on fuel.
pub write_digits : ℕ → Bytes → ℕ → ℕ → Bytes
write_digits zero dst end val = dst
write_digits (suc fuel) dst end val =
    let rest = write_digits fuel (set dst (end - 1) (b'0' + val % 10)) (end - 1) (val / 10) in
    if ltb 0 val then rest else dst

-- Both loops. A value of 64 bits has 20 digits at most.
pub write_number : Bytes → ℕ → ℕ → Bytes
write_number dst size val =
    let (dst', end, val') = write_pairs 20 dst size val in write_digits 20 dst' end val'

pub append_number : Bytes → ℕ → ℕ → ℕ × Bytes
append_number dst dst_size val =
    let size = size_of val in
    if ltb val 10 && ltb 0 dst_size
    then (1, set dst 0 (b'0' + val))
    else if ltb dst_size size
    then (0, dst)
    else (size, write_number dst size val)
