-- ===== src/Output/File.antt =====
-- The output to files, src/modules/output/file/file_output.c. What the functions ask of the
-- operating system is a list of calls, in their order; what it answers is an argument.
pub mod Retain
pub mod Cycle
pub mod Stuck
use mmt_probe.Base.{
  ℕ, zero, suc, ◌+◌, ◌-◌, Bool, true, false, List, [], ◌∷◌, ◌++◌, Option, none, some, length, take,
  ltb, leb, ◌==◌, if◌then◌else◌, ◌>>=◌, ◌&&◌,
}
use mmt_probe.Base.Words.{add32}
use mmt_probe.Base.Bytes.{Bytes, codes, eq_bytes, c_string}
use mmt_probe.Report.Rtt.{Timeval}
use mmt_probe.Text.Builder.{arr, chr, time, int, string_builder}

-- `file_output_conf_t`
pub record FileConf : Type 0 where
  pub is_enable : Bool
  pub is_sampled : Bool
  pub retained_files_count : ℕ
  pub directory : Bytes
  pub filename : Bytes

-- `struct file_output_struct`; `buffer` is the memory of `file_name`.
pub record FileOutput : Type 0 where
  pub id : ℕ
  pub nb_messages : ℕ
  pub buffer : Bytes
  pub is_open : Bool

-- The calls of `unlink`, `fopen` with "w", `fclose`, `fflush`, and `fprintf` of a message.
pub data Action : Type 0 where
  unlinked : Bytes → Action
  created : Bytes → Action
  closed : Action
  flushed : Action
  printed : Bytes → Action

-- MAX_LENGTH_FULL_PATH_FILE_NAME
abbrev pub max_path : ℕ
max_path = 255

-- SEMAPHORE_EXT
abbrev pub semaphore_ext : Bytes
semaphore_ext = codes ".sem"

-- `strstr( s, t )`: the string from the first place on where `t` stands.
unfoldable pub strstr : Bytes → Bytes → Option Bytes
strstr [] t = if eq_bytes [] t then some [] else none
strstr (c ∷ s) t =
    let rest = strstr s t in if eq_bytes (take (length t) (c ∷ s)) t then some (c ∷ s) else rest

unfoldable pub has_length : ℕ → Option Bytes → Bool
has_length n none = false
has_length n (some ext) = length ext == n

-- `_load_filter`
unfoldable pub load_filter : Bytes → Bool
unfolding has_length
load_filter name = has_length 4 (strstr name semaphore_ext)

-- `scandir` calls the filter on each entry.
abbrev pub filter_names : List Bytes → List Bytes
filter_names [] = []
filter_names (name ∷ names) =
    let rest = filter_names names in if load_filter name then name ∷ rest else rest

abbrev pub ends_in_slash : Bytes → Bool
ends_in_slash [] = false
ends_in_slash (c ∷ []) = c == b'/'
ends_in_slash (c ∷ (d ∷ s)) = ends_in_slash (d ∷ s)

-- "ensure folder is end by /"; the folder has a name.
abbrev pub with_slash : Bytes → Bytes
with_slash folder = if ends_in_slash folder then folder else folder ++ b'/' ∷ []

-- A turn of the loop of `_remove_old_sampled_files`; a name that does not fit is logged.
pub remove_one : Bytes → Bytes → List Action
remove_one folder name =
    if leb max_path (length name + length folder)
    then []
    else unlinked (folder ++ name) ∷ unlinked (folder ++ take (length name - 4) name) ∷ []

pub remove_all : Bytes → List Bytes → List Action
remove_all folder [] = []
remove_all folder (name ∷ names) = remove_one folder name ++ remove_all folder names

-- `_remove_old_sampled_files`, with the entries of the folder as `alphasort` orders them, or
-- `none` if it cannot be scanned: what it returns, and the calls.
pub remove_old_sampled_files : Bytes → ℕ → Option (List Bytes) → ℕ × List Action
remove_old_sampled_files folder retains none = (0, [])
remove_old_sampled_files folder retains (some entries) =
    let names = filter_names entries in
    let to_remove = length names - retains in
    (to_remove, remove_all (with_slash folder) (take to_remove names))

-- What the system answers while a file is made: the time, whether it opens, and the folder.
pub record Answers : Type 0 where
  pub now : Timeval
  pub opens : Bool
  pub entries : Option (List Bytes)

-- The end of `_create_new_file` and of `file_output_release`, each with its own test of the id.
abbrev pub limit_files : FileConf → Bool → Option (List Bytes) → List Action
limit_files config is_first entries =
    if is_first && ltb 0 config.retained_files_count
    then (remove_old_sampled_files config.directory config.retained_files_count entries).1
    else []

-- `_create_new_file`; `none` is the ASSERT of the string builder.
pub create_new_file : FileConf → Answers → FileOutput → Option (List Action × FileOutput)
create_new_file config a output = do
  (valid, memory) ← string_builder 0 output.buffer max_path (
      arr config.directory
      ∷ time a.now
      ∷ chr b'_'
      ∷ int output.id
      ∷ chr b'_'
      ∷ arr config.filename
      ∷ [])
  some (
    created (c_string memory) ∷ limit_files config (output.id == 1) a.entries,
    record { id = output.id; nb_messages = 0; buffer = memory; is_open = a.opens },
  )

-- `file_output_alloc_init`: `some none` is NULL; the argument is the memory that it allocates.
pub file_output_alloc_init :
    FileConf → ℕ → Bytes → Answers → Option (List Action × Option FileOutput)
file_output_alloc_init config id memory a =
    if config.is_enable
    then (do
      (actions, output) ←
          create_new_file config a
            (record { id = id; nb_messages = 0; buffer = memory; is_open = false })
      some (actions, some output))
    else some ([], none)

abbrev pub close_if : Bool → List Action
close_if opens = if opens then closed ∷ [] else []

-- `_create_semaphore_file`; the arguments are the memory of its array and whether the file opens.
pub create_semaphore_file : Bytes → Bool → FileOutput → Option (List Action)
create_semaphore_file memory opens output =
    if ltb 0 output.nb_messages
    then (do
      (valid, name) ←
          string_builder 0 memory max_path (arr (c_string output.buffer) ∷ arr semaphore_ext ∷ [])
      some (created (c_string name) ∷ close_if opens))
    else some (unlinked (c_string output.buffer) ∷ [])

-- `file_output_flush`, of an output that is not NULL
pub file_output_flush :
    FileConf → Bytes → Bool → Answers → FileOutput → Option (List Action × FileOutput)
file_output_flush config memory sem_opens a output =
    if output.is_open
    then (if config.is_sampled
        then (do
          ended ← create_semaphore_file memory sem_opens output
          (begun, new) ← create_new_file config a (record output { is_open = false })
          some ((flushed ∷ closed ∷ ended) ++ begun, new))
        else some (flushed ∷ [], output))
    else some ([], output)

-- `file_output_release`, of an output that is not NULL
pub file_output_release :
    FileConf → Bytes → Bool → Option (List Bytes) → FileOutput → Option (List Action)
file_output_release config memory sem_opens entries output = do
  ended ←
      (if output.is_open
        then (if config.is_sampled
            then (do sem ← create_semaphore_file memory sem_opens output; some (closed ∷ sem))
            else some (closed ∷ []))
        else some [])
  some (ended ++ limit_files config (output.id == 0) entries)

-- `file_output_write`, of an output that is not NULL and a message
pub file_output_write : FileOutput → Bytes → List Action × FileOutput
file_output_write output message =
    if output.is_open
    then (printed message ∷ [], record output { nb_messages = add32 output.nb_messages 1 })
    else ([], output)
