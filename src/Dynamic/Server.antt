-- ===== src/Dynamic/Server.antt =====
-- The control server, `_processing` of src/modules/dynamic_conf/server.c: a connection is read up to
-- the end of a command, and the command is published on the bus. What `read` returns is a list; the
-- sizes of `command_t` and of its field `parameter` are arguments, as is what the array `buffer`
-- holds behind the command.
pub mod Chunks
pub mod Command
pub mod Last
use mathlib.Core.Option
use mmt_probe.Base.{
  ℕ, zero, suc, ◌+◌, ◌-◌, Bool, List, [], ◌∷◌, ◌++◌, Option, none, some, length, set, take, drop,
  leb, ◌==◌, if◌then◌else◌, map,
}
use mmt_probe.Base.Bytes.{Bytes, codes, eq_bytes, le16}
use mmt_probe.Config.{Identity}
use mmt_probe.Dynamic.Bus.{Bus, Code, success, old_msg_no_consume, publish}
use mmt_probe.Dynamic.Update.{Parsed, stored, syntax, overrun, no_fuel, parse_update_parameters}

-- An error of `read`, or the bytes that it has read; none of them: no data is available.
pub data Read : Type 0 where
  read_error : Read
  received : Bytes → Read

-- The bytes up to the first '\0' and with it.
pub until_nul : Bytes → Option Bytes
until_nul [] = none
until_nul (c ∷ s) =
    let rest = until_nul s in if c == 0 then some (c ∷ []) else Option.map (λ r. c ∷ r) rest

-- Where the loop of `read` ends: `_finish`, `_process_command` with the buffer up to `buffer_len`,
-- or not yet.
pub data Input : Type 0 where
  failed : Input
  complete : Bytes → Input
  reading : Bytes → Input

-- no data: "no more data", if there was some before
abbrev pub no_data : Bytes → Input → Input
no_data [] others = others
no_data (c ∷ buffer) others = complete (c ∷ buffer)

abbrev pub at_nul : Bytes → Input → Option Bytes → Input
at_nul buffer others none = others
at_nul buffer others (some part) = complete (buffer ++ part)

-- The loop; `size` is BUFFER_SIZE.
pub receive : ℕ → Bytes → List Read → Input
receive size buffer [] = reading buffer
receive size buffer (read_error ∷ reads) = failed
receive size buffer (received [] ∷ reads) = no_data buffer (receive size buffer reads)
receive size buffer (received (c ∷ s) ∷ reads) =
    let others = receive size (buffer ++ c ∷ s) reads in
    if leb size (length (buffer ++ c ∷ s))
    then complete (buffer ++ c ∷ s)
    else at_nul buffer others (until_nul (c ∷ s))

-- What the client gets.
pub data ServerReply : Type 0 where
  list_of_parameters cmd_success cmd_syntax_error old_msg_not_consumed : ServerReply

-- How a connection ends: the reply, if any, and the bus; or the parser ran past the buffer; or it
-- has not ended.
pub data Connection : Type 0 where
  finished : Option ServerReply → Option Bus → Connection
  faulty : Connection
  open_still : Connection

-- the switch on what `mmt_bus_publish` returns
abbrev pub reply_of : Code → Option ServerReply
reply_of success = some cmd_success
reply_of old_msg_no_consume = some old_msg_not_consumed
reply_of _ = none

-- `4 + command.parameter_length` bytes of the command: its id, the length and the parameters
abbrev pub command_bytes : ℕ → Bytes → Bytes
command_bytes id parameter = le16 id ++ (le16 (length parameter) ++ parameter)

pub publish_command : Bool → ℕ → Bytes → Option Bus → Connection
publish_command locked id parameter bus =
    let (code, bus') = publish locked (command_bytes id parameter) bus in
    finished (reply_of code) bus'

-- IS_CMD
abbrev pub is_cmd : Bytes → Bytes → Bool
is_cmd buffer cmd = eq_bytes (take (length cmd) buffer) cmd

module _ (identities : List Identity) (input_mode param_size : ℕ) (locked : Bool) where
  publish_update : Option Bus → Parsed → Connection
  publish_update bus (stored parameter) = publish_command locked 3 parameter bus
  publish_update bus (syntax reason) = finished (some cmd_syntax_error) bus
  publish_update bus overrun = faulty
  publish_update bus no_fuel = faulty

  -- `_process_command`, on the buffer up to `buffer_len`; `behind` is the rest of the array.
  pub process_command : Bytes → Option Bus → Bytes → Connection
  unfolding publish_update
  process_command behind bus [] = finished (some cmd_syntax_error) bus
  process_command behind bus (c ∷ s) =
      let buffer = set (c ∷ s) (length s) 0 ++ behind in
      let update =
        parse_update_parameters identities input_mode param_size (drop 6 buffer)
          (length (c ∷ s) - 6) in
      if is_cmd buffer (codes "ls")
      then finished (some list_of_parameters) bus
      else if is_cmd buffer (codes "start")
      then publish_command locked 2 [] bus
      else if is_cmd buffer (codes "stop")
      then publish_command locked 1 [] bus
      else if is_cmd buffer (codes "update")
      then publish_update bus update
      else finished (some cmd_syntax_error) bus

  process_input : Bytes → Option Bus → Input → Connection
  process_input behind bus failed = finished none bus
  process_input behind bus (complete buffer) = process_command behind bus buffer
  process_input behind bus (reading buffer) = open_still

  -- `_processing`
  pub processing : ℕ → Bytes → List Read → Option Bus → Connection
  unfolding process_input
  processing size behind reads bus = process_input behind bus (receive size [] reads)
