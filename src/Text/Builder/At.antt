-- ===== src/Text/Builder/At.antt =====
-- Memory that begins with a text, and the writes of `src/lib/string_builder.h` behind that text.
use mmt_probe.Base.{
  ℕ, ◌+◌, ◌≤◌, ◌≡◌, refl, ap, sym, ◌∙◌, [], ◌∷◌, ◌++◌, append_assoc, length, length-append,
  take-append, drop-drop, length-drop, take, drop, arith,
}
use mmt_probe.Base.Bytes.{Bytes, c_string, c_string-append, Lacks, drop-append}
use mmt_probe.Text.Builder.{copy, put}

-- the memory `m` after `text` is written to its front
abbrev pub at : Bytes → Bytes → Bytes
at text m = text ++ drop (length text) m

-- the position behind the text, and that memory
abbrev pub cursor : Bytes → Bytes → ℕ × Bytes
cursor text m = (length text, at text m)

pub copy_lem : (s m : Bytes) → length s ≤ length m → copy s m ≡ at s m
unfolding copy
copy_lem [] m h = refl
copy_lem (c ∷ s) [] h = absurd (omega arith)
copy_lem (c ∷ s) (x ∷ m) h = ap (◌∷◌ c) (copy_lem s m (omega arith))

pub take-at : (text m : Bytes) → take (length text) (at text m) ≡ text
take-at text m = take-append text (drop (length text) m)

pub drop-at : (text m : Bytes) → drop (length text) (at text m) ≡ drop (length text) m
drop-at text m = drop-append text (drop (length text) m) (length text) refl

-- a further text behind the first one
pub at-append : (text s m : Bytes) → text ++ at s (drop (length text) m) ≡ at (text ++ s) m
at-append text s m =
    sym (append_assoc text s (drop (length s) (drop (length text) m)))
    ∙ ap (λ r. (text ++ s) ++ r)
        (drop-drop (length text) (length s) m ∙ ap (λ k. drop k m) (sym (length-append text s)))

pub put-at :
    (text s m : Bytes)
    → length text + length s ≤ length m
    → put (length text) s (at text m) ≡ at (text ++ s) m
unfolding put
put-at text s m h =
    rw
      (
        take-at text m,
        drop-at text m,
        copy_lem s (drop (length text) m) (omega (arith, length-drop (length text) m)),
      )
      (at-append text s m)

pub length-at : (text m : Bytes) → length text ≤ length m → length (at text m) ≡ length m
length-at text m h =
    omega (arith, length-append text (drop (length text) m), length-drop (length text) m)

-- A text written over the byte behind another one.
pub at-over :
    (text : Bytes) (c : ℕ) (m : Bytes) → at text (at (text ++ c ∷ []) m) ≡ at (text ++ c ∷ []) m
at-over text c m =
    let rest = drop (length (text ++ c ∷ [])) m in
    ap (λ u. text ++ drop (length text) u) (append_assoc text (c ∷ []) rest)
    ∙ ap (λ u. text ++ u) (drop-append text (c ∷ rest) (length text) refl)
    ∙ sym (append_assoc text (c ∷ []) rest)

pub c_string-at : (text m : Bytes) → Lacks 0 text → c_string (at (text ++ 0 ∷ []) m) ≡ text
c_string-at text m h =
    ap c_string (append_assoc text (0 ∷ []) (drop (length (text ++ 0 ∷ [])) m))
    ∙ c_string-append text (drop (length (text ++ 0 ∷ [])) m) h
