-- ===== src/Http/Chunk/RoundTrip.antt =====
-- `chunk_decode` on data in the chunked transfer coding of HTTP.
use mmt_probe.Base.{
  ℕ, zero, suc, ◌+◌, ◌^◌, ◌≤◌, ◌<◌, ◌≡◌, refl, ap, sym, ◌∙◌, true, false, List, [], ◌∷◌, ◌++◌,
  append-nil, append_assoc, some, length, length-append, take-append, drop, drop-drop, ltb, ◌==◌,
  arith,
}
use mmt_probe.Base.Bytes.{Bytes, drop-append}
use mmt_probe.Http.Chunk.{is_new_line, finish, fitting, get_chunk_size, chunk_loop, chunk_decode}
use mmt_probe.Http.Chunk.Plain.{chunk_loop-plain}

-- A chunk: the text of its size, and its bytes.
pub record Chunk : Type 0 where
  pub size_text : Bytes
  pub content : Bytes

abbrev pub crlf : Bytes → Bytes
crlf m = b'\r' ∷ b'\n' ∷ m

-- the chunks in turn, then the size line of the last one, whose text is `zero_text`
unfoldable pub encode_chunks : Bytes → List Chunk → Bytes
encode_chunks zero_text [] = zero_text ++ crlf []
encode_chunks zero_text (c ∷ cs) =
    c.size_text ++ crlf (c.content ++ crlf (encode_chunks zero_text cs))

abbrev pub contents : List Chunk → Bytes
contents [] = []
contents (c ∷ cs) = c.content ++ contents cs

-- `strtol` reads `text` before the end of the line as `v`, and takes it all.
abbrev pub Reads : (Bytes → ℕ × ℕ) → Bytes → ℕ → Type 0
Reads strtol text v = (rest : Bytes) → strtol (text ++ crlf rest) ≡ (v, length text)

-- No chunk is empty, the sizes are of 32 bits, and `strtol` reads them.
abbrev pub AllRead : (Bytes → ℕ × ℕ) → List Chunk → Type 0
AllRead strtol [] = Unit {0}
AllRead strtol (c ∷ cs) =
    (1 ≤ length c.content)
    × (length c.content < 2 ^ 32)
    × Reads strtol c.size_text (length c.content)
    × AllRead strtol cs

new_line-crlf : (m : Bytes) → is_new_line (crlf m) ≡ true
unfolding is_new_line
new_line-crlf m = refl

fitting_all : (n j s : ℕ) → j + s ≤ n → fitting n j s ≡ s
unfolding fitting
fitting_all n j s h = ground arith

size_of-Reads :
    (strtol : Bytes → ℕ × ℕ) (text : Bytes) (v : ℕ) (rest : Bytes)
    → Reads strtol text v
    → v < 2 ^ 32
    → (get_chunk_size strtol (text ++ crlf rest)).0 ≡ v
unfolding get_chunk_size
size_of-Reads strtol text v rest r h = rw (r rest) (omega arith)

-- One turn of the loop, at a chunk that is complete.
chunk_turn :
    (strtol : Bytes → ℕ × ℕ) (fuel : ℕ) (m : Bytes) (n j : ℕ) (buffer : Bytes) (c : Chunk)
    (rest : Bytes)
    → drop j m ≡ c.size_text ++ crlf (c.content ++ crlf rest)
    → j + length c.size_text + 2 + length c.content + 2 ≤ n
    → 1 ≤ length c.content
    → length c.content < 2 ^ 32
    → Reads strtol c.size_text (length c.content)
    → n ≤ length m
    → length m < 2 ^ 31
    → (drop (j + length c.size_text + 2 + length c.content + 2) m ≡ rest)
      × (chunk_loop strtol (suc fuel) m n j buffer
          ≡ chunk_loop strtol fuel m n
              (j + length c.size_text + 2 + length c.content + 2)
              (buffer ++ c.content))
chunk_turn strtol fuel m n j buffer c rest e h one small r inside short =
    let t = length c.size_text in
    let s = length c.content in
    let line : drop (j + t) m ≡ crlf (c.content ++ crlf rest) =
      sym (drop-drop j t m)
      ∙ ap (drop t) e
      ∙ drop-append c.size_text (crlf (c.content ++ crlf rest)) t refl in
    let body : drop (j + t + 2) m ≡ c.content ++ crlf rest =
      sym (drop-drop (j + t) 2 m) ∙ ap (drop 2) line in
    let behind : drop (j + t + 2 + s) m ≡ crlf rest =
      sym (drop-drop (j + t + 2) s m)
      ∙ ap (drop s) body
      ∙ drop-append c.content (crlf rest) s refl in
    let z = size_of-Reads strtol c.size_text s (c.content ++ crlf rest) r small in
    let taken = r (c.content ++ crlf rest) in
    let a : ltb j n ≡ true = ground arith in
    let b : (s == 0) ≡ false = ground arith in
    let d : ltb n (j + t + 2) ≡ false = ground arith in
    let f : ltb n (j + t + 2 + s + 2) ≡ false = ground arith in
    (
      sym (drop-drop (j + t + 2 + s) 2 m) ∙ ap (drop 2) behind,
      rw
          (
            chunk_loop-plain strtol fuel m n j buffer short inside (rw (e, taken) (omega arith)),
            e,
            taken,
            z,
            a,
            b,
            d,
            line,
            new_line-crlf (c.content ++ crlf rest),
            fitting_all n (j + t + 2) s (omega arith),
            f,
            behind,
            new_line-crlf rest,
            body,
            take-append c.content (crlf rest),
          )
          refl,
    )

last_turn :
    (strtol : Bytes → ℕ × ℕ) (zero_text : Bytes) (fuel : ℕ) (m : Bytes) (n j : ℕ) (buffer : Bytes)
    → drop j m ≡ zero_text ++ crlf []
    → j + length (zero_text ++ crlf []) ≤ n
    → Reads strtol zero_text 0
    → n ≤ length m
    → length m < 2 ^ 31
    → chunk_loop strtol (suc fuel) m n j buffer ≡ finish (buffer ++ [])
last_turn strtol zero_text fuel m n j buffer e h z inside short =
    let a : ltb j n ≡ true = ground (arith, length-append zero_text (crlf [])) in
    let l = length-append zero_text (crlf []) in
    rw
      (
        chunk_loop-plain strtol fuel m n j buffer short inside (rw (e, z []) (omega arith)),
        e,
        size_of-Reads strtol zero_text 0 [] z (omega arith),
        a,
        append-nil buffer,
      )
      refl

chunk_loop-encode :
    (strtol : Bytes → ℕ × ℕ) (zero_text : Bytes) (cs : List Chunk) (fuel : ℕ) (m : Bytes) (n j : ℕ)
    (buffer : Bytes)
    → drop j m ≡ encode_chunks zero_text cs
    → j + length (encode_chunks zero_text cs) ≤ n
    → n < fuel + j
    → Reads strtol zero_text 0
    → AllRead strtol cs
    → n ≤ length m
    → length m < 2 ^ 31
    → chunk_loop strtol fuel m n j buffer ≡ finish (buffer ++ contents cs)
chunk_loop-encode strtol zero_text cs zero m n j buffer e h k z r inside short =
    absurd (omega arith)
chunk_loop-encode strtol zero_text [] (suc fuel) m n j buffer e h k z r inside short =
    last_turn strtol zero_text fuel m n j buffer (unfold encode_chunks in e)
      (unfold encode_chunks in h) z inside short
chunk_loop-encode strtol zero_text (c ∷ cs) (suc fuel) m n j buffer e h k z r inside short =
    let rest = encode_chunks zero_text cs in
    let l : length c.size_text + 2 + length c.content + 2 + length rest
        ≡ length (encode_chunks zero_text (c ∷ cs)) =
      unfold encode_chunks in
      omega (
        arith,
        length-append c.size_text (crlf (c.content ++ crlf rest)),
        length-append c.content (crlf rest),
      ) in
    let (next, turn) =
      chunk_turn strtol fuel m n j buffer c rest (unfold encode_chunks in e) (omega (arith, l, h))
        r.0 r.1 r.2 inside short in
    turn
    ∙ chunk_loop-encode strtol zero_text cs fuel m n
        (j + length c.size_text + 2 + length c.content + 2) (buffer ++ c.content) next
        (omega (arith, l, h)) (omega arith) z r.3 inside short
    ∙ ap finish (append_assoc buffer c.content (contents cs))

-- When no chunk is empty, the encoded chunks are fewer than 2^31 bytes, and `strtol` reads each size
-- line up to its end, also that of the last chunk as 0, `chunk_decode` of the encoded chunks writes the contents of all chunks in turn and returns their length.
pub chunk_decode-encode :
    (strtol : Bytes → ℕ × ℕ) (zero_text : Bytes) (cs : List Chunk)
    → Reads strtol zero_text 0
    → AllRead strtol cs
    → length (encode_chunks zero_text cs) < 2 ^ 31
    → chunk_decode strtol (encode_chunks zero_text cs) (length (encode_chunks zero_text cs))
      ≡ some (length (contents cs), contents cs)
chunk_decode-encode strtol zero_text cs z r short =
    chunk_loop-encode strtol zero_text cs (suc (length (encode_chunks zero_text cs)))
      (encode_chunks zero_text cs) (length (encode_chunks zero_text cs)) 0 [] refl (omega arith)
      (omega arith) z r (omega arith) short
