-- ===== src/Dynamic/Update/Decode.antt =====
-- `parse_command_parameters` on the bytes of a list of settings.
use mathlib.Core.Path.{ap₂}
use mmt_probe.Base.{
  ℕ, zero, suc, ◌+◌, ◌≡◌, ◌≤◌, ◌<◌, refl, sym, ap, ◌∙◌, List, [], ◌∷◌, ◌++◌, length, length-append,
  get_or, drop, lt→ltb, le→ltb, map, arith, append_assoc,
}
use mmt_probe.Base.Bytes.{
  Bytes, le16, read16, c_string, c_string-append, Lacks, get_or-append, drop-append,
}
use mmt_probe.Dynamic.Update.{entry_bytes, Param, parse_from, parse_command_parameters}

-- A parameter's number with its value.
pub record Setting : Type 0 where
  pub val : ℕ
  pub value : Bytes

-- It fits into the two-byte fields, and its value is a C string.
abbrev pub IsStorable : Setting → Type 0
IsStorable e = (e.val < 65536) × (length e.value < 65535) × Lacks 0 e.value

abbrev pub AllStorable : List Setting → Type 0
AllStorable [] = Unit {0}
AllStorable (e ∷ es) = IsStorable e × AllStorable es

abbrev pub encode : List Setting → Bytes
encode [] = []
encode (e ∷ es) = entry_bytes e.val e.value ++ encode es

-- What `params[i].data` is for a reader: the string at the pointer.
abbrev pub setting_of : Bytes → Param → Setting
setting_of buffer p = record { val = p.ident; value = c_string (drop p.text buffer) }

module _ (front s rest : Bytes) (v : ℕ) where
  memory : Bytes
  memory = front ++ (entry_bytes v s ++ rest)

  at_front :
      (j i : ℕ) → i ≡ length front + j → get_or memory i 0 ≡ get_or (entry_bytes v s ++ rest) j 0
  unfolding memory
  at_front j i e = get_or-append front (entry_bytes v s ++ rest) i j 0 e

  memory_header : memory ≡ (front ++ (le16 v ++ le16 (length s + 1))) ++ (s ++ 0 ∷ rest)
  unfolding memory
  memory_header = sym (
      append_assoc front (le16 v ++ le16 (length s + 1)) (s ++ 0 ∷ rest)
      ∙ ap (λ m. front ++ m)
          (ap (λ m. (le16 v ++ le16 (length s + 1)) ++ m) (sym (append_assoc s (0 ∷ []) rest))))

  -- Where an entry stands, its number, its length and its value are read.
  entry_read :
      v < 65536
      → length s < 65535
      → Lacks 0 s
      → (read16 memory (length front) ≡ v)
        × (read16 memory (length front + 2) ≡ length s + 1)
        × (c_string (drop (length front + 4) memory) ≡ s)
  entry_read h k l = (
    omega (
      arith,
      at_front 0 (length front) (omega arith),
      at_front 1 (length front + 1) (omega arith),
    ),
    omega (
      arith,
      at_front 2 (length front + 2) (omega arith),
      at_front 3 (length front + 2 + 1) (omega arith),
    ),
    rw
        (
          memory_header,
          drop-append (front ++ (le16 v ++ le16 (length s + 1))) (s ++ 0 ∷ rest) (length front + 4)
              (omega (arith, length-append front (le16 v ++ le16 (length s + 1)))),
        )
        (c_string-append s rest l),
  )

parse_from-none :
    (buffer : Bytes) (end left offset : ℕ) → end ≤ offset → parse_from buffer end left offset ≡ []
unfolding parse_from
parse_from-none buffer end zero offset h = refl
parse_from-none buffer end (suc left) offset h = rw (le→ltb offset end h)

parse_from-next :
    (buffer : Bytes) (end left offset v n : ℕ)
    → offset < end
    → read16 buffer offset ≡ v
    → read16 buffer (offset + 2) ≡ n
    → parse_from buffer end (suc left) offset
      ≡ record { ident = v; data_len = n; text = offset + 4 }
        ∷ parse_from buffer end left (offset + 4 + n)
unfolding parse_from
parse_from-next buffer end left offset v n h a b = rw (lt→ltb offset end h, a, b)

parse_from-encode :
    (es : List Setting) (buffer front behind : Bytes) (left end offset : ℕ)
    → buffer ≡ front ++ (encode es ++ behind)
    → offset ≡ length front
    → AllStorable es
    → length es ≤ left
    → end ≡ offset + length (encode es)
    → map (setting_of buffer) (parse_from buffer end left offset) ≡ es
parse_from-encode [] buffer front behind left end offset m o h k e =
    rw (parse_from-none buffer end left offset (omega arith))
parse_from-encode (x ∷ es) buffer front behind zero end offset m o h k e = absurd (omega arith)
parse_from-encode (x ∷ es) buffer front behind (suc left) end offset m o h k e =
    let entry = entry_bytes x.val x.value in
    let m' : buffer ≡ memory front x.value (encode es ++ behind) x.val =
      unfold memory in (m ∙ ap (λ r. front ++ r) (append_assoc entry (encode es) behind)) in
    let (a, b, c) = entry_read front x.value (encode es ++ behind) x.val h.0.0 h.0.1 h.0.2 in
    let n : length entry ≡ 4 + (length x.value + 1) =
      omega (arith, length-append x.value (0 ∷ [])) in
    let n' : length (encode (x ∷ es)) ≡ length entry + length (encode es) =
      length-append entry (encode es) in
    rw
      (parse_from-next buffer end left offset x.val (length x.value + 1) (omega arith)
        (rw (m', o) a) (rw (m', o) b))
      (ap₂ ◌∷◌ (λ i. record { val = x.val; value = value_there i })
        (parse_from-encode es buffer (front ++ entry) behind left end
          (offset + 4 + (length x.value + 1))
          (m' ∙ unfold memory in sym (append_assoc front entry (encode es ++ behind)))
          (omega (arith, length-append front entry)) h.1 (omega arith) (omega arith)))
  where
    value_there : c_string (drop (offset + 4) buffer) ≡ x.value
    value_there =
        rw
          (
            m ∙ ap (λ r. front ++ r) (append_assoc (entry_bytes x.val x.value) (encode es) behind),
            o,
          )
          (unfold memory in
            (entry_read front x.value (encode es ++ behind) x.val h.0.0 h.0.1 h.0.2).2)

-- `parse_command_parameters` gives back the settings that were stored, in order, whatever stands
-- in the buffer behind them, if the array has a place for each.
pub parse_command_parameters-encode :
    (es : List Setting) (behind : Bytes) (size : ℕ)
    → AllStorable es
    → length es ≤ size
    → map
        (setting_of (encode es ++ behind))
        (parse_command_parameters (encode es ++ behind) (length (encode es)) size)
      ≡ es
unfolding parse_command_parameters
parse_command_parameters-encode es behind size h k =
    parse_from-encode es (encode es ++ behind) [] behind size (length (encode es)) 0 refl refl h k
      (omega arith)

parse_from_bound :
    (buffer : Bytes) (end left offset : ℕ) → length (parse_from buffer end left offset) ≤ left
unfolding parse_from
parse_from_bound buffer end zero offset = omega arith
parse_from_bound buffer end (suc left) offset =
    ground (arith, parse_from_bound buffer end left (offset + 4 + read16 buffer (offset + 2)))

-- It never fills more places than the array has.
pub length-parse_command_parameters :
    (buffer : Bytes) (buffer_size size : ℕ)
    → length (parse_command_parameters buffer buffer_size size) ≤ size
unfolding parse_command_parameters
length-parse_command_parameters buffer buffer_size size = parse_from_bound buffer buffer_size size 0
