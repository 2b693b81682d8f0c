-- ===== src/Text/Builder/Pieces.antt =====
-- The text that `append_hex`, `append_mac` and `append_ipv4` of `src/lib/string_builder.h` write.
use mmt_probe.Base.{
  Bool-cases, inl, inr, ℕ, ◌+◌, ◌-◌, ◌/◌, ◌%◌, ◌^◌, ◌≤◌, ◌<◌, ◌≡◌, refl, true, false, List, [], ◌∷◌,
  ◌++◌, append-nil, append_assoc, length, length-append, length-drop, get_or, drop, ltb, leb,
  if◌then◌else◌, arith,
}
use mmt_probe.Base.Bytes.{Bytes}
use mmt_probe.Text.Number.Correct.{decimal, append_number-decimal}
use mmt_probe.Text.Builder.{
  append_hex, hex_digits, Piece, char, hex, number, add_piece, add_pieces, mac_pieces, append_mac,
}
use mmt_probe.Text.Builder.At.{at, cursor, put-at, drop-at, take-at, at-append}

abbrev pub hex_text : ℕ → Bytes
hex_text v = get_or hex_digits (v / 16) 0 ∷ get_or hex_digits (v % 16) 0 ∷ []

pub append_hex_lem :
    (dst : Bytes) (n v : ℕ) → 2 ≤ n → 2 ≤ length dst → append_hex dst n v ≡ (2, at (hex_text v) dst)
unfolding append_hex
append_hex_lem dst n v h k =
    let e : ltb n 2 ≡ false = ground arith in
    rw
      (
        e,
        put-at [] (get_or hex_digits (v / 16) 0 ∷ []) dst (omega arith),
        put-at (get_or hex_digits (v / 16) 0 ∷ []) (get_or hex_digits (v % 16) 0 ∷ []) dst
            (omega arith),
      )
      refl

abbrev pub piece_text : Piece → Bytes
piece_text (char c) = c ∷ []
piece_text (hex v) = hex_text v
piece_text (number v) = decimal v

abbrev pub text_of_pieces : List Piece → Bytes
text_of_pieces [] = []
text_of_pieces (p ∷ ps) = piece_text p ++ text_of_pieces ps

abbrev pub IsWord : Piece → Type 0
IsWord (char c) = Unit {0}
IsWord (hex v) = Unit {0}
IsWord (number v) = v < 2 ^ 64

abbrev pub AllWords : List Piece → Type 0
AllWords [] = Unit {0}
AllWords (p ∷ ps) = IsWord p × AllWords ps

add_piece-cursor :
    (n : ℕ) (p : Piece) (text dst : Bytes)
    → n ≤ length dst
    → length text + length (piece_text p) ≤ n
    → IsWord p
    → add_piece n p (cursor text dst) ≡ cursor (text ++ piece_text p) dst
unfolding add_piece
add_piece-cursor n (char c) text dst h k w =
    rw (put-at text (c ∷ []) dst (omega arith), length-append text (c ∷ [])) refl
add_piece-cursor n (hex v) text dst h k w =
    rw
      (
        drop-at text dst,
        take-at text dst,
        append_hex_lem (drop (length text) dst) 2 v (omega arith)
            (omega (arith, length-drop (length text) dst)),
        at-append text (hex_text v) dst,
        length-append text (hex_text v),
      )
      refl
add_piece-cursor n (number v) text dst h k w =
    let e : leb (length (decimal v)) (n - length text) ≡ true = ground arith in
    rw
      (
        drop-at text dst,
        take-at text dst,
        append_number-decimal (drop (length text) dst) (n - length text) v w
            (omega (arith, length-drop (length text) dst)),
        e,
        at-append text (decimal v) dst,
        length-append text (decimal v),
      )
      refl

pub add_pieces-cursor :
    (n : ℕ) (ps : List Piece) (text dst : Bytes)
    → n ≤ length dst
    → length text + length (text_of_pieces ps) ≤ n
    → AllWords ps
    → add_pieces n ps (cursor text dst) ≡ cursor (text ++ text_of_pieces ps) dst
unfolding add_pieces
add_pieces-cursor n [] text dst h k w = rw (append-nil text) refl
add_pieces-cursor n (p ∷ ps) text dst h k w =
    let a = length-append (piece_text p) (text_of_pieces ps) in
    let b = length-append text (piece_text p) in
    rw
      (
        add_piece-cursor n p text dst h (omega (arith, a)) w.0,
        add_pieces-cursor n ps (text ++ piece_text p) dst h (omega (arith, a, b)) w.1,
        append_assoc text (piece_text p) (text_of_pieces ps),
      )
      refl

-- With room for its 19 bytes, `append_mac` writes the address, each of the six bytes as two
-- hexadecimal digits, with colons between them and in quotes, and leaves what is behind it; with
-- less room it writes nothing.
pub append_mac_lem :
    (dst : Bytes) (n : ℕ) (t : Bytes)
    → n ≤ length dst
    → append_mac dst n t
      ≡ (if ltb n 19 then (0, dst) else (19, at (text_of_pieces (mac_pieces t)) dst))
unfolding append_mac
append_mac_lem dst n t h = elim (Bool-cases (ltb n 19)) [
  | inl e ↦ rw e refl
  | inr e ↦ rw e (add_pieces-cursor n (mac_pieces t) [] dst h (ground arith) (omega arith))
]
