-- ===== src/Dynamic/Server/Command.antt =====
-- An update command on its way from the socket of src/modules/dynamic_conf/server.c to the bus.
use mmt_probe.Base.{
  ℕ, ◌-◌, ◌≤◌, ◌<◌, ◌≡◌, ◌≢◌, refl, ap, ◌∙◌, true, List, [], ◌∷◌, ◌++◌, Option, some, length,
  length-append, append_assoc, set, inl, inr, arith, map,
}
use mmt_probe.Base.Bytes.{Bytes, Lacks, codes, eq_bytes, set-append}
use mmt_probe.Config.{Identity}
use mmt_probe.Dynamic.Bus.{Bus, do_nothing, max_message_size}
use mmt_probe.Dynamic.Bus.Publish.{publish_lem}
use mmt_probe.Dynamic.Update.{parse_update_parameters}
use mmt_probe.Dynamic.Update.Decode.{encode}
use mmt_probe.Dynamic.Update.Encode.{Line, text, settings, AllGood, text-append}
use mmt_probe.Dynamic.Update.RoundTrip.{command, command_len, parse_update_parameters-command}
use mmt_probe.Dynamic.Server.{
  received, cmd_success, finished, command_bytes, publish_command, publish_update, process_command,
  process_input, processing,
}
use mmt_probe.Dynamic.Server.Chunks.{concat, AllSome, receive-chunks}

-- The text of the command, as the client sends it before the '\0'.
abbrev pub command_text : List Line → Bytes
command_text ls = codes "update" ++ (b'{' ∷ b'\n' ∷ text ls (b'}' ∷ []))

-- What the array holds: the command, and what is behind.
buffer-command :
    (ls : List Line) (behind : Bytes)
    → (command_text ls ++ 0 ∷ []) ++ behind ≡ codes "update" ++ command ls behind
buffer-command ls behind = ap (λ m. codes "update" ++ (b'{' ∷ b'\n' ∷ m)) (text-cut ls)
  where
    text-cut :
        (ls : List Line) → (text ls (b'}' ∷ []) ++ 0 ∷ []) ++ behind ≡ text ls (b'}' ∷ 0 ∷ behind)
    text-cut ls =
        rw (text-append ls (b'}' ∷ []), text-append ls (b'}' ∷ 0 ∷ behind)) (simp append_assoc)

command-length : (ls : List Line) → length (command_text ls ++ 0 ∷ []) - 6 ≡ command_len ls
command-length ls = omega (
  arith,
  length-append (text ls (b'}' ∷ [])) (0 ∷ []),
  ap length (text-append ls (b'}' ∷ [])),
  length-append (text ls []) (b'}' ∷ []),
)

publish_command-success :
    (id : ℕ) (parameter : Bytes) (b : Bus)
    → length (command_bytes id parameter) ≤ max_message_size
    → b.reply_code ≢ do_nothing
    → (d : Bus) × (publish_command true id parameter (some b)
        ≡ finished (some cmd_success) (some d))
      × (d.message ≡ command_bytes id parameter)
      × (d.reply_code ≡ do_nothing)
unfolding publish_command
publish_command-success id parameter b fits answered =
    elim (publish_lem true (command_bytes id parameter) b 0) [
      | inl (a, l, r, c, (d, o, m, n, due)) ↦ (d, rw (c, o) refl, m, n)
      | inr (inl h, c, o) ↦ absurd (omega arith)
      | inr (inr (inl h), c, o) ↦ absurd (cc)
      | inr (inr (inr h), c, o) ↦ absurd (answered h)
    ]

module _ (identities : List Identity) (input_mode param_size : ℕ) where
  process_command-update :
      (c : ℕ) (s behind m : Bytes) (bus : Option Bus)
      → set (c ∷ s) (length s) 0 ++ behind ≡ codes "update" ++ m
      → process_command identities input_mode param_size true behind bus (c ∷ s)
        ≡ publish_update identities input_mode param_size true bus
            (parse_update_parameters identities input_mode param_size m (length (c ∷ s) - 6))
  unfolding process_command eq_bytes
  process_command-update c s behind m bus e = rw e refl

  -- A client that sends an update command of good lines and a byte 0, in any pieces that are all shorter
  -- together than the buffer of the server: if the parameters fit into the command and the command into
  -- a message, and the message before has been answered, then the mutex being locked the command stands
  -- on the bus with what its lines say, and the client is told of the success.
  pub processing-update :
      (size : ℕ) (l : Line) (ls : List Line) (parts : List Bytes) (extra behind : Bytes) (b : Bus)
      → AllGood identities input_mode param_size (l ∷ ls)
      → length (encode (settings (l ∷ ls))) ≤ param_size
      → length (command_bytes 3 (encode (settings (l ∷ ls)))) ≤ max_message_size
      → b.reply_code ≢ do_nothing
      → Lacks 0 (command_text (l ∷ ls))
      → AllSome parts
      → concat parts ≡ command_text (l ∷ ls) ++ 0 ∷ extra
      → length (concat parts) < size
      → (d : Bus) × (processing identities input_mode param_size true size behind
            (map received parts)
            (some b)
          ≡ finished (some cmd_success) (some d))
        × (d.message ≡ command_bytes 3 (encode (settings (l ∷ ls))))
        × (d.reply_code ≡ do_nothing)
  unfolding processing process_input publish_update
  processing-update size l ls parts extra behind b good fits short answered string some_parts whole
        room =
      let cmd = command_text (l ∷ ls) in
      let body : Bytes = codes "pdate" ++ (b'{' ∷ b'\n' ∷ text (l ∷ ls) (b'}' ∷ [])) in
      let s = body ++ 0 ∷ [] in
      let n : length s ≡ length cmd = omega (arith, length-append body (0 ∷ [])) in
      let held : set (cmd ++ 0 ∷ []) (length s) 0 ++ behind
          ≡ codes "update" ++ command (l ∷ ls) behind =
        ap (λ m. m ++ behind) (set-append cmd [] 0 0 (length s) n)
        ∙ buffer-command (l ∷ ls) behind in
      let len : length (cmd ++ 0 ∷ []) - 6 ≡ command_len (l ∷ ls) = command-length (l ∷ ls) in
      let (d, e, m, r) = publish_command-success 3 (encode (settings (l ∷ ls))) b short answered in
      (
        d,
        rw (receive-chunks size cmd extra parts string some_parts whole room) (
            process_command-update b'u' s behind (command (l ∷ ls) behind) (some b) held
            ∙ rw
                (
                  len,
                  parse_update_parameters-command identities input_mode param_size l ls behind good
                      fits,
                )
                e),
        m,
        r,
      )
