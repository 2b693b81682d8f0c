-- ===== src/Output/File/Cycle.antt =====
-- The life of a data file of src/modules/output/file/file_output.c: what is asked of the system from
-- its making to the flush that ends it.
use mmt_probe.Base.{
  ℕ, ◌+◌, ◌%◌, ◌^◌, ◌≤◌, ◌<◌, ◌≡◌, refl, ap, ◌∙◌, Bool, true, false, List, [], ◌∷◌, ◌++◌, some,
  length, drop, length-append, append_assoc, Bool-cases, inl, inr, ltb, ◌==◌, if◌then◌else◌, arith,
  map, if_true, ◌>>=◌,
}
use mmt_probe.Base.Words.{add32}
use mmt_probe.Base.Bytes.{Bytes, c_string, c_string-append, Lacks, Lacks-append}
use mmt_probe.Text.Builder.{Element, arr, chr, time, int, string_builder}
use mmt_probe.Text.Builder.Strings.{joined-Lacks}
use mmt_probe.Text.Builder.At.{at, length-at}
use mmt_probe.Text.Builder.Build.{joined, joined-le, total_room, AllGood, string_builder_lem}
use mmt_probe.Text.Builder.Time.{length-decimal_six}
use mmt_probe.Report.Rtt.{Timeval}
use mmt_probe.Output.File.{
  FileConf, FileOutput, Answers, Action, created, closed, flushed, printed, unlinked, max_path,
  semaphore_ext, close_if, limit_files, create_new_file, create_semaphore_file, file_output_flush,
  file_output_write,
}

-- A string that the builder is given room for, read back as a C string.
built :
    (memory : Bytes) (es : List Element)
    → max_path ≤ length memory
    → total_room [] es + 1 < max_path
    → AllGood es
    → Lacks 0 (joined [] es)
    → (m : Bytes) × (string_builder 0 memory max_path es ≡ some (length (joined [] es), m))
      × (c_string m ≡ joined [] es)
      × (length m ≡ length memory)
built memory es h k g l =
    let text = joined [] es in
    (
      at (text ++ 0 ∷ []) memory,
      string_builder_lem [] memory max_path [] es h (omega arith) g,
      ap c_string (append_assoc text (0 ∷ []) (drop (length (text ++ 0 ∷ [])) memory))
          ∙ c_string-append text (drop (length (text ++ 0 ∷ [])) memory) l,
      length-at (text ++ 0 ∷ []) memory
          (omega (arith, length-append text (0 ∷ []), joined-le [] es g)),
    )

-- The elements of the name of a data file.
abbrev pub name_elements : FileConf → ℕ → Timeval → List Element
name_elements config id now =
    arr config.directory ∷ time now ∷ chr b'_' ∷ int id ∷ chr b'_' ∷ arr config.filename ∷ []

-- The name of a data file.
abbrev pub file_name : FileConf → ℕ → Timeval → Bytes
file_name config id now = joined [] (name_elements config id now)

-- The names of the configuration are C strings, short enough for the array.
pub record HasRoom (config : FileConf) : Type 0 where
  pub fits : length config.directory + length config.filename + 34 < max_path
  pub directory_string : Lacks 0 config.directory
  pub filename_string : Lacks 0 config.filename

-- the values of a clock
abbrev pub IsTime : Timeval → Type 0
IsTime t = (t.tv_sec < 10 ^ 12) × (t.tv_usec < 10 ^ 6)

-- Messages written one after another.
abbrev pub write_all : List Bytes → FileOutput → List Action × FileOutput
write_all [] output = ([], output)
write_all (m ∷ ms) output =
    let (a, o) = file_output_write output m in let (as', o') = write_all ms o in (a ++ as', o')

pub file_output_write-open :
    (output : FileOutput) (m : Bytes)
    → output.is_open ≡ true
    → file_output_write output m
      ≡ (printed m ∷ [], record output { nb_messages = add32 output.nb_messages 1 })
unfolding file_output_write
file_output_write-open output m o = if_true output.is_open _ ([], output) o

-- What writing messages to an open file asks of the system, and how it counts them.
pub write_all_lem :
    (ms : List Bytes) (output : FileOutput)
    → output.is_open ≡ true
    → output.nb_messages < 2 ^ 32
    → write_all ms output
      ≡ (map printed ms, record output { nb_messages = (output.nb_messages + length ms) % 2 ^ 32 })
write_all_lem [] output o h = ap (λ n. ([], record output { nb_messages = n })) (omega arith)
write_all_lem (m ∷ ms) output o h =
    let next = record output { nb_messages = add32 output.nb_messages 1 } in
    rw (file_output_write-open output m o, write_all_lem ms next o (omega arith))
      (ap (λ n. (printed m ∷ map printed ms, record output { nb_messages = n })) (omega arith))

file_output_flush-sampled :
    (config : FileConf) (memory : Bytes) (sem_opens : Bool) (a : Answers) (output : FileOutput)
    → output.is_open ≡ true
    → config.is_sampled ≡ true
    → file_output_flush config memory sem_opens a output ≡ (do
      ended ← create_semaphore_file memory sem_opens output
      (begun, new) ← create_new_file config a (record output { is_open = false })
      some ((flushed ∷ closed ∷ ended) ++ begun, new))
unfolding file_output_flush
file_output_flush-sampled config memory sem_opens a output o s =
    if_true output.is_open _ (some ([], output)) o
    ∙ if_true config.is_sampled _ (some (flushed ∷ [], output)) s

module _ (config : FileConf) (room : HasRoom config) (id : ℕ) (small : id < 2 ^ 16) where
  file_name-Lacks : (now : Timeval) → IsTime now → Lacks 0 (file_name config id now)
  file_name-Lacks now t = joined-Lacks [] (name_elements config id now) tt (
    room.directory_string,
    (
      t,
      (
        λ e. absurd (omega arith),
        (omega arith, (λ e. absurd (omega arith), (room.filename_string, tt))),
      ),
    ),
  )

  name_room : (now : Timeval) → total_room [] (name_elements config id now) + 6 < max_path
  name_room now = omega (arith, length-decimal_six id (omega arith), room.fits)

  name-AllGood : (now : Timeval) → IsTime now → AllGood (name_elements config id now)
  name-AllGood now t = (tt, (t, (tt, (omega arith, (tt, (tt, tt))))))

  -- A data file that has just been made.
  pub record Begun (now : Timeval) (output : FileOutput) : Type 0 where
    pub same_id : output.id ≡ id
    pub no_messages : output.nb_messages ≡ 0
    pub named : c_string output.buffer ≡ file_name config id now
    pub stored : max_path ≤ length output.buffer
    pub opened : output.is_open ≡ true

  -- `_create_new_file` makes a file of that name.
  pub create_new_file-Begun :
      (a : Answers) (output : FileOutput)
      → IsTime a.now
      → a.opens ≡ true
      → output.id ≡ id
      → max_path ≤ length output.buffer
      → (new : FileOutput) × (create_new_file config a output
          ≡ some
              (created (file_name config id a.now) ∷ limit_files config (id == 1) a.entries, new))
        × Begun a.now new
  unfolding create_new_file
  create_new_file-Begun a output t o e k =
      let (m, b, c, n) =
        built output.buffer (name_elements config id a.now) k (omega (arith, name_room a.now))
          (name-AllGood a.now t) (file_name-Lacks a.now t) in
      (
        record { id = output.id; nb_messages = 0; buffer = m; is_open = a.opens },
        rw (e, b, c) refl,
        record { same_id = e; no_messages = refl; named = c; stored = omega arith; opened = o },
      )

  -- `_create_semaphore_file`, on a file made at `now`: a file with messages gets a semaphore, and
  -- one without is deleted.
  abbrev pub ending : Timeval → Bool → ℕ → List Action
  ending now sem_opens messages =
      if ltb 0 messages
      then created (file_name config id now ++ semaphore_ext) ∷ close_if sem_opens
      else unlinked (file_name config id now) ∷ []

  create_semaphore_file-ending :
      (now : Timeval) (memory : Bytes) (sem_opens : Bool) (output : FileOutput)
      → IsTime now
      → max_path ≤ length memory
      → c_string output.buffer ≡ file_name config id now
      → create_semaphore_file memory sem_opens output
        ≡ some (ending now sem_opens output.nb_messages)
  unfolding create_semaphore_file
  create_semaphore_file-ending now memory sem_opens output t h e =
      let name = file_name config id now in
      let sem : List Element = arr name ∷ arr semaphore_ext ∷ [] in
      let (m, b, c, n) =
        built memory sem h
          (omega
            (arith, name_room now, joined-le [] (name_elements config id now) (name-AllGood now t)))
          (tt, (tt, tt)) (Lacks-append 0 name _ (file_name-Lacks now t) sem-Lacks) in
      elim (Bool-cases (ltb 0 output.nb_messages)) [
        | inl z ↦ rw (z, e, b, c) refl
        | inr z ↦ rw (z, e) refl
      ]
    where
      sem-Lacks : Lacks 0 (semaphore_ext ++ [])
      sem-Lacks = (
        λ e. absurd (omega arith),
        (λ e. absurd (omega arith), (λ e. absurd (omega arith), (λ e. absurd (omega arith), tt))),
      )

  -- A data file that was made at `now`, to which messages are written and that is then flushed,
  -- with sampling on: each message is printed to it, in order; it is flushed and closed; if the
  -- number of the messages is not a multiple of 2^32, its semaphore is made, else the file is
  -- deleted; a new file, of the new time, is made, and the number of files is limited by the output
  -- with the id 1.
  pub cycle :
      (now : Timeval) (output : FileOutput) (ms : List Bytes) (memory : Bytes) (sem_opens : Bool)
      (a : Answers)
      → config.is_sampled ≡ true
      → Begun now output
      → IsTime now
      → IsTime a.now
      → a.opens ≡ true
      → max_path ≤ length memory
      → let (prints, written) = write_all ms output in
        (prints ≡ map printed ms)
        × ((new : FileOutput) × (file_output_flush config memory sem_opens a written
              ≡ some (
                (flushed ∷ closed ∷ ending now sem_opens (length ms % 2 ^ 32))
                    ++ created (file_name config id a.now) ∷ limit_files config (id == 1) a.entries,
                new,
              ))
            × Begun a.now new)
  cycle now output ms memory sem_opens a sampled b t t' opens h =
      let w = write_all_lem ms output b.opened (omega (arith, b.no_messages)) in
      let n = (output.nb_messages + length ms) % 2 ^ 32 in
      let z : n ≡ length ms % 2 ^ 32 = rw b.no_messages (omega arith) in
      let done = record output { nb_messages = n } in
      let e = create_semaphore_file-ending now memory sem_opens done t h b.named in
      let (new, c, g) =
        create_new_file-Begun a (record done { is_open = false }) t' opens b.same_id b.stored in
      rw w (
        refl,
        (
          new,
          file_output_flush-sampled config memory sem_opens a done b.opened sampled
              ∙ rw (e, c, z) refl,
          g,
        ),
      )
