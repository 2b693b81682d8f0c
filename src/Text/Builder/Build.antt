-- ===== src/Text/Builder/Build.antt =====
-- The text that the macros of `src/lib/string_builder.h` write.
use mmt_probe.Base.{
  ℕ, ◌+◌, ◌-◌, ◌≤◌, ◌<◌, ◌≡◌, refl, ap, sym, ◌∙◌, true, List, [], ◌∷◌, ◌++◌, some, append-nil,
  append_assoc, length, length-append, length-drop, drop, ltb, arith,
}
use mmt_probe.Base.Bytes.{Bytes}
use mmt_probe.Text.Builder.{
  Element, advance, build_one, build_rest, build, string_builder_with_separator,
}
use mmt_probe.Text.Builder.At.{at, cursor, put-at, drop-at, take-at, at-append}
use mmt_probe.Text.Builder.Elements.{
  element_text, room, IsGood, append_element_lem, append_arr, element_text-le,
}

-- Each element, behind its separator: what it writes, and the room that it asks for.
abbrev pub joined_rest : Bytes → List Element → Bytes
joined_rest sepa [] = []
joined_rest sepa (e ∷ es) = sepa ++ (element_text e ++ joined_rest sepa es)

abbrev pub joined : Bytes → List Element → Bytes
joined sepa [] = []
joined sepa (e ∷ es) = element_text e ++ joined_rest sepa es

abbrev pub total_room : Bytes → List Element → ℕ
total_room sepa [] = 0
total_room sepa (e ∷ es) = length sepa + room e + total_room sepa es

abbrev pub AllGood : List Element → Type 0
AllGood [] = Unit {0}
AllGood (e ∷ es) = IsGood e × AllGood es

build_one-cursor :
    (n : ℕ) (e : Element) (text dst : Bytes)
    → n ≤ length dst
    → length text + room e < n
    → IsGood e
    → build_one n e (cursor text dst) ≡ some (cursor (text ++ element_text e) dst)
unfolding build_one advance
build_one-cursor n e text dst h k g =
    let a : ltb (length text) n ≡ true = ground arith in
    rw
      (
        a,
        drop-at text dst,
        append_element_lem (drop (length text) dst) (n - length text) e (omega arith) (omega arith)
            (omega (arith, length-drop (length text) dst)) g,
        take-at text dst,
        at-append text (element_text e) dst,
        length-append text (element_text e),
      )
      refl

joined_rest-le :
    (sepa : Bytes) (es : List Element)
    → AllGood es
    → length (joined_rest sepa es) ≤ total_room sepa es
joined_rest-le sepa [] g = omega arith
joined_rest-le sepa (e ∷ es) g = omega (
  arith,
  element_text-le e g.0,
  joined_rest-le sepa es g.1,
  length-append sepa (element_text e ++ joined_rest sepa es),
  length-append (element_text e) (joined_rest sepa es),
)

pub joined-le :
    (sepa : Bytes) (es : List Element) → AllGood es → length (joined sepa es) ≤ total_room sepa es
joined-le sepa [] g = omega arith
joined-le sepa (e ∷ es) g = omega (
  arith,
  element_text-le e g.0,
  joined_rest-le sepa es g.1,
  length-append (element_text e) (joined_rest sepa es),
)

build_rest-cursor :
    (sepa : Bytes) (n : ℕ) (es : List Element) (text dst : Bytes)
    → n ≤ length dst
    → length text + total_room sepa es < n
    → AllGood es
    → build_rest sepa n es (cursor text dst) ≡ some (cursor (text ++ joined_rest sepa es) dst)
unfolding build_rest advance
build_rest-cursor sepa n [] text dst h k g = rw (append-nil text) refl
build_rest-cursor sepa n (e ∷ es) text dst h k g =
    let l = length-append text sepa in
    let m = length-append (text ++ sepa) (element_text e) in
    let le = element_text-le e g.0 in
    rw
      (
        drop-at text dst,
        append_arr (drop (length text) dst) (n - length text) sepa (omega arith) (omega arith)
            (omega (arith, length-drop (length text) dst)),
        take-at text dst,
        at-append text sepa dst,
        sym l,
        build_one-cursor n e (text ++ sepa) dst h (omega arith) g.0,
        build_rest-cursor sepa n es ((text ++ sepa) ++ element_text e) dst h (omega arith) g.1,
        reassoc_rest text sepa (element_text e) (joined_rest sepa es),
      )
      refl
  where
    reassoc_rest : (t s x r : Bytes) → ((t ++ s) ++ x) ++ r ≡ t ++ (s ++ (x ++ r))
    reassoc_rest t s x r = append_assoc (t ++ s) x r ∙ append_assoc t s (x ++ r)

build-cursor :
    (sepa : Bytes) (n : ℕ) (es : List Element) (text dst : Bytes)
    → n ≤ length dst
    → length text + total_room sepa es < n
    → AllGood es
    → build sepa n es (cursor text dst) ≡ some (cursor (text ++ joined sepa es) dst)
unfolding build
build-cursor sepa n [] text dst h k g = rw (append-nil text) refl
build-cursor sepa n (e ∷ es) text dst h k g =
    let le = element_text-le e g.0 in
    rw
      (
        build_one-cursor n e text dst h (omega arith) g.0,
        build_rest-cursor sepa n es (text ++ element_text e) dst h
            (omega (arith, length-append text (element_text e))) g.1,
        append_assoc text (element_text e) (joined_rest sepa es),
      )
      refl

-- When the memory begins with `text`, its size holds the room that the elements ask for and more,
-- and the elements hold values of their C types and times of a clock, the macro does not end the
-- program: it writes, behind `text`, what the elements are as text, a separator between each two
-- of them, and the terminating byte 0, leaves what is behind, and moves `valid` behind the text.
pub string_builder_lem :
    (text dst : Bytes) (dst_size : ℕ) (sepa : Bytes) (es : List Element)
    → dst_size ≤ length dst
    → length text + total_room sepa es + 1 < dst_size
    → AllGood es
    → string_builder_with_separator (length text) (at text dst) dst_size sepa es
      ≡ some (length (text ++ joined sepa es), at ((text ++ joined sepa es) ++ 0 ∷ []) dst)
unfolding string_builder_with_separator
string_builder_lem text dst dst_size sepa es h k g =
    rw (build-cursor sepa (dst_size - 1) es text dst (omega arith) (omega arith) g) (
      ap (λ m. some (length (text ++ joined sepa es), m))
        (put-at (text ++ joined sepa es) (0 ∷ []) dst
          (omega (arith, length-append text (joined sepa es), joined-le sepa es g))))
