-- ===== src/Output.antt =====
-- The output of reports, src/modules/output/output.c: the common part of a report, and its dispatch
-- to the channels. All the channels are built in. What the brokers and sockets answer is an
-- argument; what is sent to them, and asked of the system, is a list in the order of the calls.
-- The mutex is held around each call when there are several threads, and is not modelled.
pub mod File
pub mod Cache
pub mod Reports
pub mod Lines
use mmt_probe.Base.{
  ℕ, ◌+◌, ◌-◌, Bool, true, false, ◌&&◌, ◌||◌, List, [], ◌∷◌, ◌++◌, Option, none, some, length, take,
  ltb, leb, if◌then◌else◌, ◌>>=◌, not, replicate,
}
use mmt_probe.Base.Bytes.{Bytes, codes, c_string}
use mmt_probe.Config.Channels.{Channels, is_disable_output}
use mmt_probe.Report.Rtt.{Timeval}
use mmt_probe.Text.Builder.{Element, int, str, time, put, string_builder_with_separator}
use mmt_probe.Output.File.{
  Action, FileConf, FileOutput, Answers, file_output_write, file_output_flush, file_output_release,
}
use mmt_probe.Output.Cache.{Mongo, Insertion, mongodb_output_write, flush_to_database}

-- MAX_LENGTH_REPORT_MESSAGE and MAX_LENGTH_FULL_PATH_FILE_NAME
abbrev pub max_message : ℕ
max_message = 3000

abbrev pub max_header : ℕ
max_header = 255

-- What is used of `output_conf_t`.
pub record OutputConf : Type 0 where
  pub is_enable : Bool
  pub is_json : Bool
  pub mongodb_is_enable : Bool
  pub file : FileConf

-- `struct output_struct`. A channel that is not set up is `none` or `false`.
pub record Output {ℓ} (Document : Type ℓ) : Type ℓ where
  pub probe_id : ℕ
  pub input_src : Bytes
  pub last_report_ts : Timeval
  pub config : OutputConf
  pub file : Option FileOutput
  pub kafka : Bool
  pub redis : Bool
  pub mongodb : Option (Mongo Document)
  pub socket : Bool

-- What leaves the program.
pub data Sent {ℓ} (Document : Type ℓ) : Type ℓ where
  filed : List Action → Sent Document
  to_kafka : Bytes → Sent Document
  to_redis : Bytes → Sent Document
  inserted : List (Insertion Document) → Sent Document
  to_socket : Bytes → Sent Document

-- What `kafka_output_send`, `redis_send` and `socket_output_send` return, and whether an insertion into
-- MongoDB succeeds.
pub record Delivered : Type 0 where
  pub by_kafka : Bool
  pub by_redis : Bool
  pub by_socket : Bool
  pub by_mongodb : Bool

-- The value returned, what has been sent, and the output.
pub record Written {ℓ} (Document : Type ℓ) : Type ℓ where
  pub ret : ℕ
  pub sent : List (Sent Document)
  pub output : Output Document

-- "surround message by [ and ]"; `none`: the array is too short for it.
pub surround : Bytes → Option Bytes
surround message =
    if ltb max_message (length message + 3) then none else some (b'[' ∷ (message ++ b']' ∷ []))

abbrev pub number_of : Bool → ℕ
number_of b = if b then 1 else 0

write_file : Option FileOutput → Bytes → List Action × Option FileOutput
write_file none message = ([], none)
write_file (some f) message = let (actions, f') = file_output_write f message in (actions, some f')

-- `message_body` behind the header; `none`: the terminating byte goes behind the array.
pub add_body : Option Bytes → ℕ × Bytes → Option Bytes
add_body none (offset, message) = some message
add_body (some body) (offset, message) =
    let start = offset + 1 in
    let len =
      if ltb (max_message - start) (length body) then max_message - start else length body in
    if ltb (start + len) max_message
    then some
        (put (start + len) (0 ∷ []) (put start (take len body) (put offset (b',' ∷ []) message)))
    else none

flush_file :
    FileConf → Bytes → Bool → Answers → Option FileOutput → Option (List Action × Option FileOutput)
flush_file config memory sem_opens a none = some ([], none)
flush_file config memory sem_opens a (some f) = do
  (actions, f') ← file_output_flush config memory sem_opens a f
  some (actions, some f')

module _ {ℓ} {Document : Type ℓ} where
  abbrev pub is_set : Option (Mongo Document) → Bool
  is_set none = false
  is_set (some mongo) = true

  -- "output to file": the counter goes up whatever is written.
  pub to_file : Channels → Bytes → Written Document → Written Document
  unfolding write_file
  to_file channels message w =
      let (actions, file) = write_file w.output.file message in
      if channels.file
      then record {
        ret = w.ret + 1;
        sent = w.sent ++ filed actions ∷ [];
        output = record (w.output) { file = file };
      }
      else w

  -- the blocks of Kafka, Redis and the sockets
  abbrev pub send_if : Bool → Bool → Sent Document → Written Document → Written Document
  send_if enabled delivered s w =
      if enabled
      then record { ret = w.ret + number_of delivered; sent = w.sent ++ s ∷ []; output = w.output }
      else w

  insert_result :
      Written Document
      → Option (List (Insertion Document) × Mongo Document)
      → Option (Written Document)
  insert_result w none = none
  insert_result w (some (documents, mongo)) = some (record {
    ret = w.ret + 1;
    sent = w.sent ++ inserted documents ∷ [];
    output = record (w.output) { mongodb = some mongo };
  })

  -- what `new_msg` holds, if it is made
  pub new_message : Output Document → Channels → Bytes → Option Bytes
  new_message output channels message =
      if output.config.is_json || (is_set output.mongodb && channels.mongodb)
      then surround message
      else some []

  abbrev pub nothing_written : Output Document → Written Document
  nothing_written output = record { ret = 0; sent = []; output = output }

  -- "global output is disable or no output on this channel"
  abbrev pub is_silent : Output Document → Channels → Bool
  is_silent output channels = not output.config.is_enable || is_disable_output channels

  -- The elements of the common part of a report.
  abbrev pub header_elements : Output Document → ℕ → Timeval → List Element
  header_elements output report_type ts =
      int report_type ∷ int output.probe_id ∷ str output.input_src ∷ time ts ∷ []

  abbrev pub stamp : Timeval → Written Document → Written Document
  stamp ts w = record {
    ret = w.ret;
    sent = w.sent;
    output = record (w.output) { last_report_ts = ts };
  }

  flush_mongodb :
      Bool → Bool → Option (Mongo Document) → List (Insertion Document) × Option (Mongo Document)
  flush_mongodb enabled inserts none = ([], none)
  flush_mongodb enabled inserts (some mongo) =
      let (documents, emptied) = flush_to_database inserts mongo in
      if enabled then (documents, some emptied) else ([], some mongo)

module _ {ℓ} {Document : Type ℓ} (parse : Bytes → Option Document) where
  -- the block of MongoDB
  pub to_mongodb :
      Bool → Bool → Bytes → Option (Mongo Document) → Written Document → Option (Written Document)
  unfolding insert_result
  to_mongodb enabled inserts message none w = some w
  to_mongodb enabled inserts message (some mongo) w =
      if enabled then insert_result w (mongodb_output_write parse inserts mongo message) else some w

  -- `_write`
  pub write : Delivered → Output Document → Channels → Bytes → Option (Written Document)
  write answers output channels message = do
    new_msg ← new_message output channels message
    let text = if output.config.is_json then new_msg else message
    let w = to_file channels text (record { ret = 0; sent = []; output = output })
    let w' = send_if (output.kafka && channels.kafka) answers.by_kafka (to_kafka text) w
    let w'' = send_if (output.redis && channels.redis) answers.by_redis (to_redis text) w'
    w''' ← to_mongodb channels.mongodb answers.by_mongodb new_msg output.mongodb w''
    some (send_if (output.socket && channels.socket) answers.by_socket (to_socket text) w''')

  -- `output_write_report`, of an output that is not NULL; `message` is what the array holds.
  pub output_write_report :
      Bytes
      → Delivered
      → Output Document
      → Channels
      → ℕ
      → Timeval
      → Option Bytes
      → Option (Written Document)
  output_write_report memory answers output channels report_type ts message_body =
      if is_silent output channels then some (nothing_written output) else (do
        header ←
            string_builder_with_separator 0 memory max_header (b',' ∷ [])
              (header_elements output report_type ts)
        message ← add_body message_body header
        w ← write answers output channels (c_string message)
        some (stamp ts w))

  -- `output_write_report_with_format`: the text is what `vsnprintf` makes of the format and the
  -- arguments; `none`: its length is no index of the array.
  pub output_write_report_with_format :
      Bytes
      → Delivered
      → Output Document
      → Channels
      → ℕ
      → Timeval
      → Option Bytes
      → Option (Written Document)
  output_write_report_with_format memory answers output channels report_type ts none =
      output_write_report memory answers output channels report_type ts none
  output_write_report_with_format memory answers output channels report_type ts (some text) =
      if is_silent output channels
      then some (nothing_written output)
      else if ltb (length text) max_message
      then output_write_report memory answers output channels report_type ts (some text)
      else none

  -- `output_write`
  pub output_write : Delivered → Output Document → Channels → Bytes → Option (Written Document)
  output_write answers output channels message =
      if is_silent output channels
      then some (nothing_written output)
      else write answers output channels message

  -- `output_flush`, of an output that is not NULL: the calls for the file, the insertions,
  -- which succeed or not, and the output
  pub output_flush :
      Bytes
      → Bool
      → Answers
      → Bool
      → Output Document
      → Option (List Action × List (Insertion Document) × Output Document)
  unfolding flush_file flush_mongodb
  output_flush memory sem_opens a inserts output = do
    (actions, file) ← flush_file output.config.file memory sem_opens a output.file
    let (documents, mongodb) = flush_mongodb output.config.mongodb_is_enable inserts output.mongodb
    some (actions, documents, record output { file = file; mongodb = mongodb })
