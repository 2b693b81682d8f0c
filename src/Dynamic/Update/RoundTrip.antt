-- ===== src/Dynamic/Update/RoundTrip.antt =====
-- From the text of an update command to the settings that its receivers read.
use mmt_probe.Base.{
  ℕ, suc, ◌+◌, ◌-◌, ◌≡◌, ◌≤◌, refl, sym, ap, ◌∙◌, false, List, [], ◌∷◌, ◌++◌, length, length-append,
  get_or, drop, ltb, ◌==◌, map, arith, append_assoc, set,
}
use mmt_probe.Base.Bytes.{Bytes, get_or-append, set-append}
use mmt_probe.Config.{Identity}
use mmt_probe.Dynamic.Update.{
  stored, update_loop, parse_update_parameters, parse_command_parameters,
}
use mmt_probe.Dynamic.Update.Decode.{
  encode, AllStorable, setting_of, parse_command_parameters-encode,
}
use mmt_probe.Dynamic.Update.Encode.{Line, text, settings, AllGood, text-append, update_loop-text}

-- The text of a command behind its word, as the server's buffer holds it: the lines between
-- "{\n" and "}", the '\0', and whatever the buffer holds behind.
abbrev pub command : List Line → Bytes → Bytes
command ls mem = b'{' ∷ b'\n' ∷ text ls (b'}' ∷ 0 ∷ mem)

-- `buffer_len`: up to and with the '\0'
abbrev pub command_len : List Line → ℕ
command_len ls = length (text ls []) + 4

-- the text ends its last line
text-last : (l : Line) (ls : List Line) → (p : Bytes) × (text (l ∷ ls) [] ≡ p ++ b'\n' ∷ [])
text-last l [] = (l.identity.ident ++ b'=' ∷ l.value, simp append_assoc)
text-last l (x ∷ xs) =
    let (p, e) = text-last x xs in
    (l.identity.ident ++ (b'=' ∷ (l.value ++ (b'\n' ∷ p))), rw e (simp append_assoc))

lines-le : (ls : List Line) → length ls ≤ length (text ls [])
lines-le [] = omega arith
lines-le (l ∷ ls) = omega (
  arith,
  lines-le ls,
  length-append l.identity.ident (b'=' ∷ (l.value ++ (b'\n' ∷ text ls []))),
  length-append l.value (b'\n' ∷ text ls []),
)

length-settings : (ls : List Line) → length (settings ls) ≡ length ls
length-settings [] = refl
length-settings (l ∷ ls) = ap suc (length-settings ls)

module _ (identities : List Identity) (input_mode param_size : ℕ) where
  -- Where the tests before the loop pass, the loop runs on what is behind the first two bytes.
  parse_update_parameters-loop :
      (buffer : Bytes) (n : ℕ)
      → get_or buffer (n + 3) 0 ≡ 0
      → get_or buffer 0 0 ≡ b'{'
      → get_or buffer (n + 2) 0 ≡ b'}'
      → get_or buffer (n + 1) 0 ≡ b'\n'
      → parse_update_parameters identities input_mode param_size buffer (n + 4)
        ≡ update_loop identities input_mode param_size
            (length buffer)
            []
            (drop 2 (set buffer (n + 2) 0))
  unfolding parse_update_parameters
  parse_update_parameters-loop buffer n ends front back line =
      let i : n + 4 - 1 ≡ n + 3 = omega arith in
      let j : n + 3 - 1 ≡ n + 2 = omega arith in
      let k : n + 3 - 2 ≡ n + 1 = omega arith in
      let t : (n + 4 == 0) ≡ false = ground arith in
      let w : ltb (n + 3) 2 ≡ false = ground arith in rw (i, ends, t, w, front, j, back, k, line)

  -- `_parse_update_parameters` stores the settings of a well-formed command, in order, if they fit
  -- into the command's parameter field.
  pub parse_update_parameters-command :
      (l : Line) (ls : List Line) (mem : Bytes)
      → AllGood identities input_mode param_size (l ∷ ls)
      → length (encode (settings (l ∷ ls))) ≤ param_size
      → parse_update_parameters identities input_mode param_size
          (command (l ∷ ls) mem)
          (command_len (l ∷ ls))
        ≡ stored (encode (settings (l ∷ ls)))
  parse_update_parameters-command l ls mem good fits =
      let body = text (l ∷ ls) [] in
      let pre = b'{' ∷ b'\n' ∷ body in
      let behind = b'}' ∷ 0 ∷ mem in
      let (p, e) = text-last l ls in
      let split : command (l ∷ ls) mem ≡ pre ++ behind =
        ap (λ m. b'{' ∷ b'\n' ∷ m) (text-append (l ∷ ls) behind) in
      let ends = get_or-append pre behind (length body + 3) 1 0 (omega arith) in
      let brace = get_or-append pre behind (length body + 2) 0 0 (omega arith) in
      let n : length body ≡ length p + 1 = ap length e ∙ length-append p (b'\n' ∷ []) in
      let line =
        get_or-append (b'{' ∷ b'\n' ∷ p) (b'\n' ∷ behind) (length body + 1) 0 0 (omega arith) in
      let cut : set (command (l ∷ ls) mem) (length body + 2) 0
          ≡ b'{' ∷ b'\n' ∷ text (l ∷ ls) (0 ∷ 0 ∷ mem) =
        ap (λ m. set m (length body + 2) 0) split
        ∙ set-append pre (0 ∷ mem) b'}' 0 (length body + 2) (omega arith)
        ∙ ap (λ m. b'{' ∷ b'\n' ∷ m) (sym (text-append (l ∷ ls) (0 ∷ 0 ∷ mem))) in
      let nl : pre ++ behind ≡ b'{' ∷ b'\n' ∷ (p ++ b'\n' ∷ behind) =
        ap (λ m. b'{' ∷ b'\n' ∷ (m ++ behind)) e
        ∙ ap (λ m. b'{' ∷ b'\n' ∷ m) (append_assoc p _ _) in
      parse_update_parameters-loop (command (l ∷ ls) mem) (length body)
        (ap (λ m. get_or m (length body + 3) 0) split ∙ ends) refl
        (ap (λ m. get_or m (length body + 2) 0) split ∙ brace)
        (ap (λ m. get_or m (length body + 1) 0) (split ∙ nl) ∙ line)
      ∙ ap
          (λ m.
            update_loop identities input_mode param_size (length (command (l ∷ ls) mem)) []
              (drop 2 m))
          cut
      ∙ update_loop-text identities input_mode param_size l ls (length (command (l ∷ ls) mem)) []
          (0 ∷ mem) good
          (omega (arith, ap length split, length-append pre behind, lines-le (l ∷ ls)))
          (omega arith)

  -- The receivers of a command get the settings that its text gives, where each line is good and can be
  -- stored, what is stored fits into the parameters of a command, and there are no more lines than the
  -- receiver's list has places: it is stored, and read back by `parse_command_parameters`, whatever
  -- stands in the message behind it.
  pub command-settings :
      (l : Line) (ls : List Line) (mem rest : Bytes) (size : ℕ)
      → AllGood identities input_mode param_size (l ∷ ls)
      → AllStorable (settings (l ∷ ls))
      → length (encode (settings (l ∷ ls))) ≤ param_size
      → length (l ∷ ls) ≤ size
      → (bytes : Bytes) × (parse_update_parameters identities input_mode param_size
            (command (l ∷ ls) mem)
            (command_len (l ∷ ls))
          ≡ stored bytes)
        × (map
              (setting_of (bytes ++ rest))
              (parse_command_parameters (bytes ++ rest) (length bytes) size)
            ≡ settings (l ∷ ls))
  command-settings l ls mem rest size good storable fits places = (
    encode (settings (l ∷ ls)),
    parse_update_parameters-command l ls mem good fits,
    parse_command_parameters-encode (settings (l ∷ ls)) rest size storable
        (omega (arith, length-settings (l ∷ ls))),
  )
