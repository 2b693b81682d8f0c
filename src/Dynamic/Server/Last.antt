-- ===== src/Dynamic/Server/Last.antt =====
-- A command that the client of src/modules/dynamic_conf/server.c does not end with '\0'.
use mmt_probe.Base.{
  ℕ, ◌+◌, ◌≤◌, ◌<◌, ◌≡◌, refl, ap, false, Bool, List, [], ◌∷◌, ◌++◌, Option, length, length-append,
  append-nil, leb, arith,
}
use mmt_probe.Base.Bytes.{Bytes, Lacks, set-append}
use mmt_probe.Config.{Identity}
use mmt_probe.Dynamic.Bus.{Bus}
use mmt_probe.Dynamic.Server.{
  Read, received, complete, receive, process_command, process_input, processing,
}
use mmt_probe.Dynamic.Server.Chunks.{receive-chunks, until_nul-Lacks}

module _ (identities : List Identity) (input_mode param_size : ℕ) (locked : Bool) where
  -- The last byte of the buffer does not matter, as it is overwritten.
  process_command-last :
      (s behind : Bytes) (c d : ℕ) (bus : Option Bus)
      → process_command identities input_mode param_size locked behind bus (s ++ c ∷ [])
        ≡ process_command identities input_mode param_size locked behind bus (s ++ d ∷ [])
  unfolding process_command
  process_command-last [] behind c d bus = refl
  process_command-last (x ∷ s) behind c d bus =
      let n : length (s ++ c ∷ []) ≡ length (x ∷ s) = omega (arith, length-append s (c ∷ [])) in
      let m : length (s ++ d ∷ []) ≡ length (x ∷ s) = omega (arith, length-append s (d ∷ [])) in
      rw
        (
          set-append (x ∷ s) [] c 0 (length (s ++ c ∷ [])) n,
          set-append (x ∷ s) [] d 0 (length (s ++ d ∷ [])) m,
          n,
          m,
        )
        refl

  receive-end :
      (size : ℕ) (t : Bytes) (reads : List Read)
      → Lacks 0 t
      → 1 ≤ length t
      → length t < size
      → receive size [] (received t ∷ received [] ∷ reads) ≡ complete t
  unfolding receive
  receive-end size [] reads h a k = absurd (omega arith)
  receive-end size (c ∷ s) reads h a k =
      let short : leb size (length (c ∷ s)) ≡ false = ground arith in
      rw (short, until_nul-Lacks (c ∷ s) h) refl

  -- A command that ends with the data of the client instead of a '\0' is taken for what is left of
  -- it without its last byte.
  pub processing-unterminated :
      (size : ℕ) (s behind : Bytes) (c : ℕ) (reads : List Read) (bus : Option Bus)
      → Lacks 0 (s ++ c ∷ [])
      → Lacks 0 s
      → length s + 1 < size
      → processing identities input_mode param_size locked size behind
          (received (s ++ c ∷ []) ∷ received [] ∷ reads)
          bus
        ≡ processing identities input_mode param_size locked size behind
            (received (s ++ 0 ∷ []) ∷ [])
            bus
  unfolding processing process_input
  processing-unterminated size s behind c reads bus h k room =
      let n = length-append s (c ∷ []) in
      let m = length-append s (0 ∷ []) in
      rw
        (
          receive-end size (s ++ c ∷ []) reads h (omega arith) (omega arith),
          receive-chunks size s [] ((s ++ 0 ∷ []) ∷ []) k (omega arith, tt)
              (append-nil (s ++ 0 ∷ [])) (omega (arith, ap length (append-nil (s ++ 0 ∷ [])))),
        )
        (process_command-last s behind c 0 bus)
