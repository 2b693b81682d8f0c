-- ===== src/Output/Lines.antt =====
-- Reports on their way into a data file: src/modules/output/output.c on top of
-- src/modules/output/file/file_output.c, with the file as the only channel that is set up.
use mmt_probe.Base.{
  ℕ, suc, ◌==◌, ◌+◌, ◌%◌, ◌^◌, ◌≤◌, ◌<◌, ◌≡◌, refl, ap, sym, ◌∙◌, Bool, true, false, List, [], ◌∷◌,
  ◌++◌, Option, none, some, length, map, ◌>>=◌, arith,
}
use mmt_probe.Base.Words.{add32}
use mmt_probe.Base.Bytes.{Bytes, Lacks}
use mmt_probe.Config.Channels.{Channels}
use mmt_probe.Report.Rtt.{Timeval}
use mmt_probe.Output.File.{
  FileConf, FileOutput, Answers, Action, created, closed, flushed, printed, limit_files, max_path,
  file_output_flush,
}
use mmt_probe.Output.File.Cycle.{
  HasRoom, IsTime, Begun, ending, file_name, write_all, file_output_write-open, write_all_lem,
  cycle,
}
use mmt_probe.Output.{
  Output, Delivered, Sent, filed, max_message, max_header, write, to_file, to_mongodb, new_message,
  output_write_report, output_flush, write_file, flush_file, flush_mongodb,
}
use mmt_probe.Text.Builder.{Element, int, str, time}
use mmt_probe.Text.Builder.Build.{joined, total_room, AllGood}
use mmt_probe.Output.Reports.{output_write_report_lem}

-- The arguments of a call of `output_write_report`.
pub record Entry : Type 0 where
  pub report_type : ℕ
  pub ts : Timeval
  pub body : Bytes

-- An enabled output in CSV, with a file and nothing else.
abbrev pub file_only {ℓ} :
    {Document : Type ℓ} → ℕ → Bytes → FileConf → Timeval → FileOutput → Output Document
file_only probe_id input_src config ts f = record {
  probe_id = probe_id;
  input_src = input_src;
  last_report_ts = ts;
  config = record { is_enable = true; is_json = false; mongodb_is_enable = false; file = config };
  file = some f;
  kafka = false;
  redis = false;
  mongodb = none;
  socket = false;
}

abbrev pub with_file : Bool → Bool → Bool → Bool → Channels
with_file redis kafka mongodb socket = record {
  file = true;
  redis = redis;
  kafka = kafka;
  mongodb = mongodb;
  socket = socket;
}

module _ {ℓ} {Document : Type ℓ} (parse : Bytes → Option Document) (memory : Bytes)
    (size : max_message ≤ length memory) (answers : Delivered) (redis kafka mongodb socket : Bool)
    (probe_id : ℕ) (input_src : Bytes) (config : FileConf) where
  write-line :
      (ts : Timeval) (f : FileOutput) (text : Bytes)
      → f.is_open ≡ true
      → write parse answers
          (file_only probe_id input_src config ts f)
          (with_file redis kafka mongodb socket)
          text
        ≡ some (record {
          ret = 1;
          sent = filed (printed text ∷ []) ∷ [];
          output =
              file_only probe_id input_src config ts
                (record f { nb_messages = add32 f.nb_messages 1 });
        })
  unfolding write to_file new_message write_file to_mongodb
  write-line ts f text o = rw (file_output_write-open f text o) refl

  -- The elements of the common part of an entry, and the line that it becomes.
  abbrev pub elements : Entry → List Element
  elements e = int e.report_type ∷ int probe_id ∷ str input_src ∷ time e.ts ∷ []

  abbrev pub line : Entry → Bytes
  line e = (joined (b',' ∷ []) (elements e) ++ b',' ∷ []) ++ e.body

  -- The common part has room and the body fits; the values are those of C types and of a clock, and
  -- the texts are C strings.
  pub record IsEntry (e : Entry) : Type 0 where
    pub fits : total_room (b',' ∷ []) (elements e) + 1 < max_header
    pub good : AllGood (elements e)
    pub source_string : Lacks 0 input_src
    pub body_string : Lacks 0 e.body
    pub body_fits : length (joined (b',' ∷ []) (elements e)) + length e.body + 1 < max_message

  report-line :
      (ts : Timeval) (f : FileOutput) (e : Entry)
      → f.is_open ≡ true
      → IsEntry e
      → output_write_report parse memory answers
          (file_only probe_id input_src config ts f)
          (with_file redis kafka mongodb socket)
          e.report_type
          e.ts
          (some e.body)
        ≡ some (record {
          ret = 1;
          sent = filed (printed (line e) ∷ []) ∷ [];
          output =
              file_only probe_id input_src config e.ts
                (record f { nb_messages = add32 f.nb_messages 1 });
        })
  report-line ts f e o i =
      output_write_report_lem parse memory size answers (file_only probe_id input_src config ts f)
        (with_file redis kafka mongodb socket) e.report_type e.ts e.body refl
        (record { fits = i.fits; good = i.good; string = i.source_string }) i.body_string
        i.body_fits
      ∙ rw (write-line ts f (line e) o) refl

  abbrev pub report_all :
      List Entry → Output Document → Option (List (Sent Document) × Output Document)
  report_all [] output = some ([], output)
  report_all (e ∷ es) output = do
    w ←
        output_write_report parse memory answers output (with_file redis kafka mongodb socket)
          e.report_type e.ts (some e.body)
    (sent, last) ← report_all es w.output
    some (w.sent ++ sent, last)

  abbrev pub AllEntries : List Entry → Type 0
  AllEntries [] = Unit {0}
  AllEntries (e ∷ es) = IsEntry e × AllEntries es

  -- the lines as they are sent to the file, one by one
  abbrev pub filed_line : Entry → Sent Document
  filed_line e = filed (printed (line e) ∷ [])

  abbrev pub last_time : Timeval → List Entry → Timeval
  last_time ts [] = ts
  last_time ts (e ∷ es) = last_time e.ts es

  abbrev pub counted : FileOutput → ℕ → FileOutput
  counted f n = record f { nb_messages = n }

  report_all-lines :
      (es : List Entry) (ts : Timeval) (f : FileOutput)
      → f.is_open ≡ true
      → f.nb_messages < 2 ^ 32
      → AllEntries es
      → report_all es (file_only probe_id input_src config ts f)
        ≡ some (
          map filed_line es,
          file_only probe_id input_src config
              (last_time ts es)
              (counted f ((f.nb_messages + length es) % 2 ^ 32)),
        )
  report_all-lines [] ts f o h i =
      ap (λ n. some ([], file_only probe_id input_src config ts (counted f n))) (omega arith)
  report_all-lines (e ∷ es) ts f o h (i, is) =
      rw
        (
          report-line ts f e o i,
          report_all-lines es e.ts (counted f (add32 f.nb_messages 1)) o (omega arith) is,
        )
        (ap
          (λ n. some (
            filed_line e ∷ map filed_line es,
            file_only probe_id input_src config (last_time e.ts es) (counted f n),
          ))
          (omega arith))

  length-map : (es : List Entry) → length (map line es) ≡ length es
  length-map [] = refl
  length-map (e ∷ es) = ap suc (length-map es)

  flush-file :
      (mem : Bytes) (sem_opens : Bool) (a : Answers) (inserts : Bool) (ts : Timeval)
      (f new : FileOutput) (actions : List Action)
      → file_output_flush config mem sem_opens a f ≡ some (actions, new)
      → output_flush parse mem sem_opens a inserts (file_only probe_id input_src config ts f)
        ≡ some (actions, [], file_only probe_id input_src config ts new)
  unfolding output_flush flush_file flush_mongodb
  flush-file mem sem_opens a inserts ts f new actions e = rw e refl

  -- Reports given to an enabled CSV output with a data file made at `now` and no other channel, and
  -- then a flush, with sampling on, under these conditions: the common part of each report needs less
  -- than the 255 bytes of its place, each line is shorter than the 3000 bytes of its array, source and
  -- bodies are C strings, the paths of the folder and the name have room, the times are those of a
  -- clock, and the new file can be opened. Then every report becomes one line of the file, in the order of the
  -- reports; then the file is flushed and closed and gets its semaphore, or is deleted if there are
  -- as many reports as a multiple of 2^32, and a new file is made.
  pub reports-flush :
      (id : ℕ) (small : id < 2 ^ 16) (room : HasRoom config) (now ts : Timeval) (f : FileOutput)
      (es : List Entry) (mem : Bytes) (sem_opens : Bool) (a : Answers) (inserts : Bool)
      → config.is_sampled ≡ true
      → Begun config room id small now f
      → IsTime now
      → IsTime a.now
      → a.opens ≡ true
      → max_path ≤ length mem
      → AllEntries es
      → (last : Output Document) × (new : FileOutput) × (report_all es
            (file_only probe_id input_src config ts f)
          ≡ some (map filed_line es, last))
        × (output_flush parse mem sem_opens a inserts last
            ≡ some (
              (flushed ∷ closed ∷ ending config room id small now sem_opens (length es % 2 ^ 32))
                  ++ created (file_name config id a.now) ∷ limit_files config (id == 1) a.entries,
              [],
              file_only probe_id input_src config (last_time ts es) new,
            ))
        × Begun config room id small a.now new
  reports-flush id small room now ts f es mem sem_opens a inserts sampled b t t' opens k i =
      let (prints, (new, e, g)) =
        cycle config room id small now f (map line es) mem sem_opens a sampled b t t' opens k in
      let n = (f.nb_messages + length es) % 2 ^ 32 in
      let w : (write_all (map line es) f).1 ≡ counted f n =
        ap (λ r. r.1) (write_all_lem (map line es) f b.opened (omega (arith, b.no_messages)))
        ∙ ap (λ m. counted f ((f.nb_messages + m) % 2 ^ 32)) (length-map es) in
      (
        file_only probe_id input_src config (last_time ts es) (counted f n),
        new,
        report_all-lines es ts f b.opened (omega (arith, b.no_messages)) i,
        flush-file mem sem_opens a inserts (last_time ts es) (counted f n) new _ (
            ap (file_output_flush config mem sem_opens a) (sym w)
            ∙ e
            ∙ ap
                (λ m. some (
                  (flushed ∷ closed ∷ ending config room id small now sem_opens (m % 2 ^ 32))
                      ++ created (file_name config id a.now)
                        ∷ limit_files config (id == 1) a.entries,
                  new,
                ))
                (length-map es)),
        g,
      )
