-- ===== src/Text/Builder.antt =====
-- The functions and macros of `src/lib/string_builder.h` around `append_number`. As there, `dst` is
-- the memory from the pointer on, and a result is what the function returns with that memory. A
-- position and a memory together are what the source moves along with `offset` and `valid`.
pub mod At
pub mod Pieces
pub mod Time
pub mod Elements
pub mod Build
pub mod Strings
use mmt_probe.Base.{
  ℕ, zero, suc, ◌+◌, ◌-◌, ◌/◌, ◌%◌, min, List, [], ◌∷◌, ◌++◌, Option, none, some, length, take,
  drop, replicate, get_or, ltb, ◌==◌, if◌then◌else◌, ◌>>=◌,
}
use mmt_probe.Base.Bytes.{Bytes, codes}
use mmt_probe.Text.Number.{append_number}
use mmt_probe.Report.Rtt.{Timeval}

-- `memcpy( dst, s, length s )`; a write out of bounds changes nothing.
unfoldable pub copy : Bytes → Bytes → Bytes
copy [] dst = dst
copy (c ∷ s) [] = []
copy (c ∷ s) (x ∷ dst) = c ∷ copy s dst

-- the same at `dst + i`; an assignment to `dst[ i ]` is one of a single byte
unfoldable pub put : ℕ → Bytes → Bytes → Bytes
put i s dst = take i dst ++ copy s (drop i dst)

unfoldable pub append_char : Bytes → ℕ → ℕ → ℕ × Bytes
append_char dst dst_size c = if dst_size == 0 then (0, dst) else (1, put 0 (c ∷ []) dst)

pub append_string_without_quote : Bytes → ℕ → Bytes → ℕ × Bytes
append_string_without_quote dst dst_size src =
    if dst_size == 0
    then (0, dst)
    else (let src_size = if ltb dst_size (length src) then dst_size else length src in
        (src_size, put 0 (take src_size src) dst))

pub append_string : Bytes → ℕ → Bytes → ℕ × Bytes
append_string dst dst_size src =
    if ltb dst_size 2
    then (0, dst)
    else if dst_size == 2
    then (2, put 1 (b'"' ∷ []) (put 0 (b'"' ∷ []) dst))
    else (let src_size = if ltb (dst_size - 2) (length src) then dst_size - 2 else length src in
        (
          src_size + 2,
          put (src_size + 1) (b'"' ∷ []) (put 1 (take src_size src) (put 0 (b'"' ∷ []) dst)),
        ))

abbrev pub hex_digits : Bytes
hex_digits = codes "0123456789ABCDEF"

pub append_hex : Bytes → ℕ → ℕ → ℕ × Bytes
append_hex dst dst_size val = if ltb dst_size 2 then (0, dst) else (
  2,
  put 1 (get_or hex_digits (val % 16) 0 ∷ []) (put 0 (get_or hex_digits (val / 16) 0 ∷ []) dst),
)

-- The statements that `append_mac` and `append_ipv4` are made of: an assignment to
-- `dst[ offset ++ ]`, and `offset += append_...( dst + offset, ... )`.
pub data Piece : Type 0 where
  char : ℕ → Piece
  hex : ℕ → Piece
  number : ℕ → Piece

-- `dst_size` is the size that `append_number` gets less the offset; `append_hex` gets 2.
pub add_piece : ℕ → Piece → ℕ × Bytes → ℕ × Bytes
add_piece dst_size (char c) (offset, dst) = (offset + 1, put offset (c ∷ []) dst)
add_piece dst_size (hex v) (offset, dst) =
    let (n, m) = append_hex (drop offset dst) 2 v in (offset + n, take offset dst ++ m)
add_piece dst_size (number v) (offset, dst) =
    let (n, m) = append_number (drop offset dst) (dst_size - offset) v in
    (offset + n, take offset dst ++ m)

pub add_pieces : ℕ → List Piece → ℕ × Bytes → ℕ × Bytes
add_pieces dst_size [] s = s
add_pieces dst_size (p ∷ ps) s = add_pieces dst_size ps (add_piece dst_size p s)

-- `t` is the six bytes of the address.
abbrev pub mac_pieces : Bytes → List Piece
mac_pieces t =
    char b'"'
    ∷ hex (get_or t 0 0)
    ∷ char b':'
    ∷ hex (get_or t 1 0)
    ∷ char b':'
    ∷ hex (get_or t 2 0)
    ∷ char b':'
    ∷ hex (get_or t 3 0)
    ∷ char b':'
    ∷ hex (get_or t 4 0)
    ∷ char b':'
    ∷ hex (get_or t 5 0)
    ∷ char b'"'
    ∷ []

pub append_mac : Bytes → ℕ → Bytes → ℕ × Bytes
append_mac dst dst_size t =
    if ltb dst_size 19 then (0, dst) else add_pieces dst_size (mac_pieces t) (0, dst)

-- `p` is the four bytes of the address in memory.
abbrev pub ipv4_pieces : Bytes → List Piece
ipv4_pieces p =
    number (get_or p 0 0)
    ∷ char b'.'
    ∷ number (get_or p 1 0)
    ∷ char b'.'
    ∷ number (get_or p 2 0)
    ∷ char b'.'
    ∷ number (get_or p 3 0)
    ∷ []

-- `INET_ADDRSTRLEN` is 16.
pub append_ipv4 : Bytes → ℕ → Bytes → ℕ × Bytes
append_ipv4 dst dst_size p =
    if ltb dst_size 16 then (0, dst) else add_pieces dst_size (ipv4_pieces p) (0, dst)

-- "put tmp to end of 6 bytes of dst": the six zeros, then the digits of `tmp` at their end.
pub write_usec : ℕ → ℕ → Bytes → Bytes
write_usec i usec dst =
    let (len, tmp) = append_number (replicate 6 0) 6 usec in
    put (i + (6 - len)) (take len tmp) (put i (replicate 6 b'0') dst)

-- `none`: the ASSERT on `offset` ends the program.
pub append_timeval : Bytes → ℕ → Timeval → Option (ℕ × Bytes)
append_timeval dst dst_size t =
    let (offset, m) = append_number dst dst_size t.tv_sec in
    if ltb dst_size 12
    then some (0, dst)
    else if ltb 12 offset
    then none
    else if ltb dst_size (offset + 7)
    then some (offset, m)
    else some (offset + 7, write_usec (offset + 1) t.tv_usec (put offset (b'.' ∷ []) m))

-- The arguments of the macros: __ARR, __STR, __INT, __CHAR, __TIME, __HEX, __MAC and __IPv4.
pub data Element : Type 0 where
  arr : Bytes → Element
  str : Bytes → Element
  int : ℕ → Element
  chr : ℕ → Element
  time : Timeval → Element
  hexa : ℕ → Element
  mac : Bytes → Element
  ipv4 : Bytes → Element

pub append_element : Bytes → ℕ → Element → Option (ℕ × Bytes)
append_element dst n (arr s) = some (append_string_without_quote dst n s)
append_element dst n (str s) = some (append_string dst n s)
append_element dst n (int v) = some (append_number dst n v)
append_element dst n (chr c) = some (append_char dst n c)
append_element dst n (time t) = append_timeval dst n t
append_element dst n (hexa v) = some (append_hex dst n v)
append_element dst n (mac t) = some (append_mac dst n t)
append_element dst n (ipv4 p) = some (append_ipv4 dst n p)

-- `__i += X` with `__ptr + __i` and `__n - __i`
pub advance : ℕ × Bytes → Option (ℕ × Bytes) → Option (ℕ × Bytes)
advance (i, dst) none = none
advance (i, dst) (some (k, m)) = some (i + k, take i dst ++ m)

-- `__BUILDER`
pub build_one : ℕ → Element → ℕ × Bytes → Option (ℕ × Bytes)
build_one n e (i, dst) =
    if ltb i n then advance (i, dst) (append_element (drop i dst) (n - i) e) else some (i, dst)

-- `APPLY( __SEPARATOR, __BUILDER, ... )` behind its first element: a separator before each
-- element; `__EMPTY` is the separator of no bytes.
pub build_rest : Bytes → ℕ → List Element → ℕ × Bytes → Option (ℕ × Bytes)
build_rest sepa n [] s = some s
build_rest sepa n (e ∷ es) (i, dst) = do
  s ← advance (i, dst) (some (append_string_without_quote (drop i dst) (n - i) sepa))
  s' ← build_one n e s
  build_rest sepa n es s'

pub build : Bytes → ℕ → List Element → ℕ × Bytes → Option (ℕ × Bytes)
build sepa n [] s = some s
build sepa n (e ∷ es) s = do s' ← build_one n e s; build_rest sepa n es s'

abbrev pub terminate : ℕ × Bytes → ℕ × Bytes
terminate (i, dst) = (i, put i (0 ∷ []) dst)

-- `STRING_BUILDER_WITH_SEPARATOR`: the new `valid` and the memory
pub string_builder_with_separator : ℕ → Bytes → ℕ → Bytes → List Element → Option (ℕ × Bytes)
string_builder_with_separator valid dst dst_size separator es = do
  s ← build separator (dst_size - 1) es (valid, dst)
  some (terminate s)

-- `STRING_BUILDER`
abbrev pub string_builder : ℕ → Bytes → ℕ → List Element → Option (ℕ × Bytes)
string_builder valid dst dst_size es = string_builder_with_separator valid dst dst_size [] es
