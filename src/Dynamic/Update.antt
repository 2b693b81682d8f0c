-- ===== src/Dynamic/Update.antt =====
-- The parameters of an update command: written by `_parse_update_parameters` of
-- src/modules/dynamic_conf/server.c, and read by `parse_command_parameters` of the same file.
-- The command stands in a memory that goes on behind it. A scan that runs past the end of that
-- memory is a fault of the model (`overrun`).
pub mod Encode
pub mod Decode
pub mod RoundTrip
pub mod Total
use mmt_probe.Base.{
  ℕ, zero, suc, ◌+◌, ◌-◌, ◌≡◌, Bool, true, false, not, ◌&&◌, ◌||◌, List, [], ◌∷◌, ◌++◌, Option,
  none, some, length, get_or, set, drop, ltb, ◌==◌, if◌then◌else◌,
}
use mmt_probe.Base.Bytes.{Bytes, le16, read16}
use mmt_probe.Config.{
  DataType, no_support, bool, uint16, uint32, char_star, list, Identity, identity_from_string,
  Reason, validate,
}

-- Why `_parse_update_parameters` replies with CMD_SYNTAX_ERROR and returns 0.
pub data Syntax : Type 0 where
  no_parameter no_braces no_last_newline no_equals unknown_name empty_value bad_value huge : Syntax

-- `stored` is the bytes written to `parameter`; the offset that is returned is their number.
pub data Parsed : Type 0 where
  stored : Bytes → Parsed
  syntax : Syntax → Parsed
  overrun : Parsed
  no_fuel : Parsed

-- `while( *val_str != NEW_LINE && *val_str != '=' ) val_str ++`: the name, whether '=' ended it,
-- and the memory behind that character.
pub record Name : Type 0 where
  pub name : Bytes
  pub is_equals : Bool
  pub behind : Bytes

prepend_name : ℕ → Option Name → Option Name
prepend_name c none = none
prepend_name c (some n) = some (record n { name = c ∷ n.name })

pub scan_name : Bytes → Option Name
unfolding prepend_name
scan_name [] = none
scan_name (c ∷ m) =
    if c == b'\n'
    then some (record { name = []; is_equals = false; behind = m })
    else if c == b'='
    then some (record { name = []; is_equals = true; behind = m })
    else prepend_name c (scan_name m)

-- `while( val_str[ val_len ] != NEW_LINE ) val_len ++`: the value, and the memory behind the '\n'.
prepend_value : ℕ → Option (Bytes × Bytes) → Option (Bytes × Bytes)
prepend_value c none = none
prepend_value c (some (v, m)) = some (c ∷ v, m)

pub scan_value : Bytes → Option (Bytes × Bytes)
unfolding prepend_value
scan_value [] = none
scan_value (c ∷ m) = if c == b'\n' then some ([], m) else prepend_value c (scan_value m)

-- What one round of the loop stores for a parameter: number, length with the '\0', value, '\0'.
abbrev pub entry_bytes : ℕ → Bytes → Bytes
entry_bytes val s = le16 val ++ le16 (length s + 1) ++ s ++ 0 ∷ []

-- `ident->data_type == NO_SUPPORT`
unfoldable pub is_unsupported : DataType → Bool
is_unsupported no_support = true
is_unsupported _ = false

-- One round of the loop: what is stored with it, and the memory behind it.
pub data Round : Type 0 where
  fails : Parsed → Round
  goes_on : Bytes → Bytes → Round

-- `buffer_len` without a '\0' at its end
abbrev pub text_len : Bytes → ℕ → ℕ
text_len buffer buffer_len =
    if get_or buffer (buffer_len - 1) 0 == 0 then buffer_len - 1 else buffer_len

module _ (identities : List Identity) (input_mode param_size : ℕ) where
  -- from "check value depending on data type" on
  pub store_value : Bytes → Identity → Bytes → Bytes → Option Reason → Round
  store_value out i s m (some r) = fails (syntax bad_value)
  store_value out i s m none =
      if ltb param_size (length out + 2 + 2 + (length s + 1))
      then fails (syntax huge)
      else goes_on (out ++ entry_bytes i.val s) m

  pub round_value : Bytes → Identity → Option (Bytes × Bytes) → Round
  unfolding store_value
  round_value out i none = fails overrun
  round_value out i (some ([], m)) = fails (syntax empty_value)
  round_value out i (some (c ∷ s, m)) = store_value out i (c ∷ s) m (validate input_mode i (c ∷ s))

  pub round_ident : Bytes → Option Identity → Bytes → Round
  round_ident out none m = fails (syntax unknown_name)
  round_ident out (some i) m =
      if is_unsupported i.data_type
      then fails (syntax unknown_name)
      else round_value out i (scan_value m)

  pub round_name : Bytes → Option Name → Round
  round_name out none = fails overrun
  round_name out (some n) =
      if n.is_equals
      then round_ident out (identity_from_string identities n.name) n.behind
      else fails (syntax no_equals)

  -- The `do … while( *val_str != '\0' )` loop, on fuel.
  pub update_loop : ℕ → Bytes → Bytes → Parsed
  update_loop zero out m = no_fuel
  update_loop (suc fuel) out m = elim (round_name out (scan_name m)) [
    | fails p ↦ p
    | goes_on out' [] ↦ overrun
    | goes_on out' (zero ∷ m') ↦ stored out'
    | goes_on out' (suc c ∷ m') ↦ update_loop fuel out' (suc c ∷ m')
  ]

  -- The '}' is overwritten by '\0'. The test for the last '\n' reads the byte before it, also
  -- where the length has gone round below 0: there it is the '{'.
  pub parse_update_parameters : Bytes → ℕ → Parsed
  parse_update_parameters buffer buffer_len =
      let len = text_len buffer buffer_len in
      let loop = update_loop (length buffer) [] (drop 2 (set buffer (len - 1) 0)) in
      if buffer_len == 0
      then syntax no_parameter
      else if ltb len 2
          || not (get_or buffer 0 0 == b'{')
          || not (get_or buffer (len - 1) 0 == b'}')
      then syntax no_braces
      else if not (get_or buffer (len - 2) 0 == b'\n')
      then syntax no_last_newline
      else loop

-- `command_param_t`; `text` is where `data` points to in the buffer.
pub record Param : Type 0 where
  pub ident : ℕ
  pub data_len : ℕ
  pub text : ℕ

-- The loop of `parse_command_parameters`, by the places of `lst` that are left.
pub parse_from : Bytes → ℕ → ℕ → ℕ → List Param
parse_from buffer buffer_size zero offset = []
parse_from buffer buffer_size (suc left) offset =
    let p : Param = record {
      ident = read16 buffer offset;
      data_len = read16 buffer (offset + 2);
      text = offset + 4;
    } in
    if ltb offset buffer_size
    then p ∷ parse_from buffer buffer_size left (offset + 4 + read16 buffer (offset + 2))
    else []

pub parse_command_parameters : Bytes → ℕ → ℕ → List Param
parse_command_parameters buffer buffer_size size = parse_from buffer buffer_size size 0
