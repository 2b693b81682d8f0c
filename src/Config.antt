-- ===== src/Config.antt =====
-- Configuration parameters by name and number: src/configure_override.c and the types of
-- configure_override.h. The table of parameters is made by macros that depend on the modules that
-- are built in, so the functions take it, and the number of `input.mode` in it, as arguments.
pub mod Channels
pub mod Check
pub mod Override
pub mod Validate
use mmt_probe.Base.{
  ℕ, ◌≡◌, Bool, true, false, not, ◌&&◌, ◌||◌, List, [], ◌∷◌, Option, none, some, ltb, leb, ◌==◌,
  if◌then◌else◌, get_elem?,
}
use mmt_probe.Base.Bytes.{Bytes, codes, eq_bytes}

-- `data_type_t`
pub data DataType : Type 0 where
  no_support bool uint16 uint32 char_star list : DataType

-- `identity_t`
pub record Identity : Type 0 where
  pub val : ℕ
  pub data_type : DataType
  pub ident : Bytes

-- `conf_get_identity_from_string`
unfoldable pub identity_from_string : List Identity → Bytes → Option Identity
identity_from_string [] s = none
identity_from_string (i ∷ l) s = if eq_bytes s i.ident then some i else identity_from_string l s

-- `conf_get_identity_from_id`, for a number that is not negative
abbrev pub identity_from_id : List Identity → ℕ → Option Identity
identity_from_id l id = get_elem? l id

pub data Reason : Type 0 where
  unexpected_value expect_bool : Reason

-- `conf_parse_input_mode` of src/configure.c; `true` is ONLINE_ANALYSIS.
pub parse_input_mode : Bytes → Option Bool
parse_input_mode s =
    if eq_bytes s (codes "ONLINE")
    then some true
    else if eq_bytes s (codes "OFFLINE")
    then some false
    else none

-- The loop over the characters of a number. The source returns 0, that is NULL, at the first
-- character that is no digit, and NULL at the end.
pub check_number : Bytes → Option Reason
check_number [] = none
check_number (c ∷ s) = if ltb c b'0' || ltb b'9' c then none else check_number s

check_bool : Bytes → Option Reason
check_bool s =
    if eq_bytes s (codes "true")
    then none
    else if eq_bytes s (codes "false")
    then none
    else some expect_bool

check_type : DataType → Bytes → Option Reason
check_type bool s = check_bool s
check_type uint16 s = check_number s
check_type uint32 s = check_number s
check_type _ s = none

mode_reason : Option Bool → Option Reason
mode_reason (some m) = none
mode_reason none = some unexpected_value

-- `conf_validate_data_value`; `none` is NULL, the value is accepted.
pub validate : ℕ → Identity → Bytes → Option Reason
unfolding check_type check_bool mode_reason
validate input_mode i s =
    if i.val == input_mode then mode_reason (parse_input_mode s) else check_type i.data_type s
