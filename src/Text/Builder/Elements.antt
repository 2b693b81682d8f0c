-- ===== src/Text/Builder/Elements.antt =====
-- The text of an element of the macros of `src/lib/string_builder.h`.
use mmt_probe.Base.{
  ℕ, ◌+◌, ◌-◌, ◌^◌, ◌≤◌, ◌<◌, ◌≡◌, refl, ap, true, false, Bool-cases, inl, inr, [], ◌∷◌, ◌++◌, some,
  length, length-append, get_or, take, take_all, ltb, leb, ◌==◌, arith,
}
use mmt_probe.Base.Bytes.{Bytes}
use mmt_probe.Text.Number.Correct.{decimal, append_number-decimal}
use mmt_probe.Text.Builder.{
  put, append_char, append_string_without_quote, append_string, append_ipv4, ipv4_pieces,
  mac_pieces, Element, arr, str, int, chr, time, hexa, mac, ipv4, append_element,
}
use mmt_probe.Text.Builder.At.{at, cursor, put-at}
use mmt_probe.Text.Builder.Pieces.{
  hex_text, append_hex_lem, text_of_pieces, add_pieces-cursor, append_mac_lem,
}
use mmt_probe.Text.Builder.Time.{
  time_text, length-time_text, append_timeval_lem, length-decimal_byte,
}

-- the text of an element that has room
abbrev pub element_text : Element → Bytes
element_text (arr s) = s
element_text (str s) = (b'"' ∷ []) ++ (s ++ b'"' ∷ [])
element_text (int v) = decimal v
element_text (chr c) = c ∷ []
element_text (time t) = time_text t
element_text (hexa v) = hex_text v
element_text (mac t) = text_of_pieces (mac_pieces t)
element_text (ipv4 p) = text_of_pieces (ipv4_pieces p)

-- the room that an element asks for
abbrev pub room : Element → ℕ
room (arr s) = length s
room (str s) = length s + 2
room (int v) = length (decimal v)
room (chr c) = 1
room (time t) = 19
room (hexa v) = 2
room (mac t) = 19
room (ipv4 p) = 16

-- the values that the C types and the `struct timeval` of a clock hold
abbrev pub IsGood : Element → Type 0
IsGood (arr s) = Unit {0}
IsGood (str s) = Unit {0}
IsGood (int v) = v < 2 ^ 64
IsGood (chr c) = Unit {0}
IsGood (time t) = (t.tv_sec < 10 ^ 12) × (t.tv_usec < 10 ^ 6)
IsGood (hexa v) = v < 256
IsGood (mac t) = Unit {0}
IsGood (ipv4 p) =
    (get_or p 0 0 < 256) × (get_or p 1 0 < 256) × (get_or p 2 0 < 256) × (get_or p 3 0 < 256)

quotes :
    (s dst : Bytes)
    → length s + 2 ≤ length dst
    → (
      length s + 2,
      put (length s + 1) (b'"' ∷ []) (put 1 (take (length s) s) (put 0 (b'"' ∷ []) dst)),
    )
      ≡ cursor (element_text (str s)) dst
quotes s dst h =
    let q = b'"' ∷ [] in
    let one : length s + 1 ≡ length (q ++ s) = omega (arith, length-append q s) in
    let two : length s + 2 ≡ length (q ++ (s ++ q)) =
      omega (arith, length-append q (s ++ q), length-append s q) in
    rw
      (
        take_all (length s) s (omega arith),
        put-at [] q dst (omega arith),
        put-at q s dst (omega arith),
        one,
        put-at (q ++ s) q dst (omega arith),
      )
      (ap (λ k. (k, at (q ++ (s ++ q)) dst)) two)

quotes_empty :
    (dst s : Bytes)
    → length s ≡ 0
    → 2 ≤ length dst
    → (2, put 1 (b'"' ∷ []) (put 0 (b'"' ∷ []) dst)) ≡ cursor (element_text (str s)) dst
quotes_empty dst [] h k =
    rw (put-at [] (b'"' ∷ []) dst (omega arith), put-at (b'"' ∷ []) (b'"' ∷ []) dst (omega arith))
      refl
quotes_empty dst (c ∷ s) h k = absurd (omega arith)

pub append_arr :
    (dst : Bytes) (n : ℕ) (s : Bytes)
    → 1 ≤ n
    → length s ≤ n
    → n ≤ length dst
    → append_string_without_quote dst n s ≡ cursor s dst
unfolding append_string_without_quote
append_arr dst n s one h k =
    let a : (n == 0) ≡ false = ground arith in
    let l : ltb n (length s) ≡ false = ground arith in
    rw (a, l, take_all (length s) s (omega arith), put-at [] s dst (omega arith)) refl

append_chr :
    (dst : Bytes) (n c : ℕ) → 1 ≤ n → n ≤ length dst → append_char dst n c ≡ cursor (c ∷ []) dst
unfolding append_char
append_chr dst n c one k =
    let a : (n == 0) ≡ false = ground arith in rw (a, put-at [] (c ∷ []) dst (omega arith)) refl

append_string_lem :
    (dst : Bytes) (n : ℕ) (s : Bytes)
    → length s + 2 ≤ n
    → n ≤ length dst
    → append_string dst n s ≡ cursor (element_text (str s)) dst
unfolding append_string
append_string_lem dst n s h k =
    let a : ltb n 2 ≡ false = ground arith in
    let l : ltb (n - 2) (length s) ≡ false = ground arith in
    elim (Bool-cases (n == 2)) [
      | inl e ↦ rw (a, e) (quotes_empty dst s (ground arith) (ground arith))
      | inr e ↦ rw (a, e, l) (quotes s dst (omega arith))
    ]

length-ipv4 : (p : Bytes) → IsGood (ipv4 p) → length (text_of_pieces (ipv4_pieces p)) ≤ 15
length-ipv4 p g =
    let d0 = decimal (get_or p 0 0) in
    let d1 = decimal (get_or p 1 0) in
    let d2 = decimal (get_or p 2 0) in
    let d3 = decimal (get_or p 3 0) in
    let t3 = d3 ++ [] in
    let t2 = d2 ++ b'.' ∷ t3 in
    let t1 = d1 ++ b'.' ∷ t2 in
    omega (
      arith,
      length-append d0 (b'.' ∷ t1),
      length-append d1 (b'.' ∷ t2),
      length-append d2 (b'.' ∷ t3),
      length-append d3 [],
      length-decimal_byte (get_or p 0 0) g.0,
      length-decimal_byte (get_or p 1 0) g.1,
      length-decimal_byte (get_or p 2 0) g.2,
      length-decimal_byte (get_or p 3 0) g.3,
    )

append_ipv4_lem :
    (dst : Bytes) (n : ℕ) (p : Bytes)
    → 16 ≤ n
    → n ≤ length dst
    → IsGood (ipv4 p)
    → append_ipv4 dst n p ≡ cursor (element_text (ipv4 p)) dst
unfolding append_ipv4
append_ipv4_lem dst n p h k g =
    let a : ltb n 16 ≡ false = ground arith in
    rw a (
      add_pieces-cursor n (ipv4_pieces p) [] dst k (omega (arith, length-ipv4 p g))
        (omega (arith, g)))

pub append_element_lem :
    (dst : Bytes) (n : ℕ) (e : Element)
    → 1 ≤ n
    → room e ≤ n
    → n ≤ length dst
    → IsGood e
    → append_element dst n e ≡ some (cursor (element_text e) dst)
unfolding append_element
append_element_lem dst n (arr s) one h k g = ap some (append_arr dst n s one h k)
append_element_lem dst n (str s) one h k g = ap some (append_string_lem dst n s h k)
append_element_lem dst n (int v) one h k g =
    let e : leb (length (decimal v)) n ≡ true = ground arith in
    rw (append_number-decimal dst n v g k, e) refl
append_element_lem dst n (chr c) one h k g = ap some (append_chr dst n c one k)
append_element_lem dst n (time t) one h k g = append_timeval_lem dst n t h k g.0 g.1
append_element_lem dst n (hexa v) one h k g = ap some (append_hex_lem dst n v h (omega arith))
append_element_lem dst n (mac t) one h k g =
    let e : ltb n 19 ≡ false = ground arith in rw (append_mac_lem dst n t k, e) refl
append_element_lem dst n (ipv4 p) one h k g = ap some (append_ipv4_lem dst n p h k g)

-- what is written is not more than the room
pub element_text-le : (e : Element) → IsGood e → length (element_text e) ≤ room e
element_text-le (arr s) g = omega arith
element_text-le (str s) g = omega (arith, length-append s (b'"' ∷ []))
element_text-le (int v) g = omega arith
element_text-le (chr c) g = omega arith
element_text-le (time t) g = length-time_text t g.0 g.1
element_text-le (hexa v) g = omega arith
element_text-le (mac t) g = omega arith
element_text-le (ipv4 p) g = omega (arith, length-ipv4 p g)
