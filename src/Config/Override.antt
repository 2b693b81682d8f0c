-- ===== src/Config/Override.antt =====
-- Overriding configuration parameters by their identities: `conf_override_element` and what it
-- calls, of src/configure_override.c. A configuration is the fields that the table of parameters
-- points at, by the numbers of the parameters. `atoi`, `atol` (converted to `uint32_t`) and the
-- lists that libconfuse reads are parameters.
pub mod Outcome
pub mod Reading
use mmt_probe.Base.{
  ℕ, ◌%◌, ◌^◌, Bool, true, false, List, [], ◌∷◌, Option, none, some, ◌==◌, if◌then◌else◌,
}
use mmt_probe.Base.Bytes.{Bytes, codes, eq_bytes}
use mmt_probe.Config.{
  DataType, no_support, bool, uint16, uint32, char_star, list, Identity, identity_from_string,
  identity_from_id, parse_input_mode,
}
use mmt_probe.Config.Channels.{Channels, same_channels, same_bit, parse_output_channel}

-- The fields: an `int` of an enumeration, `bool`, `uint16_t`, `uint32_t`, `char *` and
-- `output_channel_conf_t`. A string is `none` where the field does not hold the address of one.
pub record Conf : Type 0 where
  pub enums : ℕ → ℕ
  pub flags : ℕ → Bool
  pub halves : ℕ → ℕ
  pub words : ℕ → ℕ
  pub texts : ℕ → Option Bytes
  pub channels : ℕ → Channels

-- Where the pointer of a parameter points: NULL; into a block that is not there, whose pointer is NULL;
-- to a field of fewer bits than the type of the parameter says (output.cache-period); or to the field.
pub data Field : Type 0 where
  null missing narrow there : Field

-- The table of parameters, the numbers that the code names, and the libraries. The number of
-- CONF_ATT__NONE is 0.
pub record Table : Type 0 where
  pub identities : List Identity
  pub input_mode : ℕ
  pub rtt_base : ℕ
  pub is_output_channel : ℕ → Bool
  pub field : ℕ → Field
  pub atoi : Bytes → ℕ
  pub atol : Bytes → ℕ
  pub parse_list : Bytes → Option (List Bytes)

-- an assignment to the field of one parameter
abbrev pub assign {ℓ} : {A : Type ℓ} → (ℕ → A) → ℕ → A → ℕ → A
assign fields i v j = if j == i then v else fields j

-- `_parse_bool`
unfoldable pub parse_bool : Bytes → Bool
parse_bool s =
    if eq_bytes s (codes "true") then true else if eq_bytes s (codes "false") then false else false

-- ONLINE_ANALYSIS is 0, OFFLINE_ANALYSIS is 1.
abbrev pub mode_number : Option Bool → Option ℕ
mode_number none = none
mode_number (some online) = some (if online then 0 else 1)

-- `conf_parse_rtt_base` of src/configure.c
pub parse_rtt_base : Bytes → Option ℕ
parse_rtt_base s =
    if eq_bytes s (codes "PREFER_SENDER")
    then some 3
    else if eq_bytes s (codes "SENDER")
    then some 1
    else if eq_bytes s (codes "CAPTOR")
    then some 2
    else none

-- the two cases of "special data type"
pub override_enum : ℕ → Option ℕ → Conf → Bool × Conf
override_enum i none conf = (false, conf)
override_enum i (some v) conf = (true, record conf { enums = assign conf.enums i v })

-- the case CHAR_STAR; `none`: `strcmp` gets an address that is none of a string.
pub override_text : ℕ → Bytes → Option Bytes → Conf → Option (Bool × Conf)
override_text i s none conf = none
override_text i s (some old) conf =
    if eq_bytes old s
    then some (false, conf)
    else some (true, record conf { texts = assign conf.texts i (some s) })

-- the case LIST, for the numbers with an output channel
pub override_channels : ℕ → Channels → Conf → Bool × Conf
override_channels i int_val conf =
    if same_channels int_val (conf.channels i)
    then (false, conf)
    else (true, record conf { channels = assign conf.channels i int_val })

unfoldable pub override_flag : ℕ → Bool → Conf → Bool × Conf
override_flag i int_val conf =
    if same_bit int_val (conf.flags i)
    then (false, conf)
    else (true, record conf { flags = assign conf.flags i int_val })

-- `int_val` has 32 bits, the field 16.
pub override_half : ℕ → ℕ → Conf → Bool × Conf
override_half i int_val conf =
    if int_val == conf.halves i
    then (false, conf)
    else (true, record conf { halves = assign conf.halves i (int_val % 2 ^ 16) })

pub override_word : ℕ → ℕ → Conf → Bool × Conf
override_word i int_val conf =
    if int_val == conf.words i
    then (false, conf)
    else (true, record conf { words = assign conf.words i int_val })

-- The switch on the data type. The case CONF_ATT__DUMP_PCAP__ENABLE under LIST is met by no
-- parameter of the table, as that one is BOOL.
unfoldable pub override_typed : Table → DataType → ℕ → Bytes → Conf → Option (Bool × Conf)
override_typed t no_support i s conf = some (false, conf)
override_typed t char_star i s conf = override_text i s (conf.texts i) conf
override_typed t list i s conf = some (
    if t.is_output_channel i
    then override_channels i (parse_output_channel (t.parse_list s)) conf
    else (false, conf))
override_typed t bool i s conf = some (override_flag i (parse_bool s) conf)
override_typed t uint16 i s conf = some (override_half i (t.atoi s) conf)
override_typed t uint32 i s conf = some (override_word i (t.atol s) conf)

-- `_override_element_by_ident` on a field that is there; CONF_ATT__NONE has none.
unfoldable pub override_there : Table → Identity → Bytes → Conf → Option (Bool × Conf)
override_there t ident s conf =
    if ident.val == 0
    then some (false, conf)
    else if ident.val == t.input_mode
    then some (override_enum ident.val (mode_number (parse_input_mode s)) conf)
    else if ident.val == t.rtt_base
    then some (override_enum ident.val (parse_rtt_base s) conf)
    else override_typed t ident.data_type ident.val s conf

-- a special type in a block that is not there: nothing is written where the value is none of it.
abbrev pub enum_missing : Option ℕ → Conf → Option (Bool × Conf)
enum_missing none conf = some (false, conf)
enum_missing (some v) conf = none

abbrev pub typed_missing : Table → DataType → ℕ → Conf → Option (Bool × Conf)
typed_missing t no_support i conf = some (false, conf)
typed_missing t list i conf = if t.is_output_channel i then none else some (false, conf)
typed_missing t _ i conf = none

-- In a block that is not there; `none`: an access through an address that is none of a field.
unfoldable pub override_missing : Table → Identity → Bytes → Conf → Option (Bool × Conf)
override_missing t ident s conf =
    if ident.val == t.input_mode
    then enum_missing (mode_number (parse_input_mode s)) conf
    else if ident.val == t.rtt_base
    then enum_missing (parse_rtt_base s) conf
    else typed_missing t ident.data_type ident.val conf

unfoldable pub override_field : Table → Field → Identity → Bytes → Conf → Option (Bool × Conf)
override_field t null ident s conf = some (false, conf)
override_field t missing ident s conf = override_missing t ident s conf
override_field t narrow ident s conf = none
override_field t there ident s conf = override_there t ident s conf

-- `_override_element_by_ident`; `none` also for the four bytes that are read and written where the
-- field has two.
unfoldable pub override_by_ident : Table → Identity → Bytes → Conf → Option (Bool × Conf)
unfolding override_field
override_by_ident t ident s conf = override_field t (t.field ident.val) ident s conf

pub data Answer : Type 0 where
  updated unchanged unknown : Answer

answer : Option (Bool × Conf) → Option (Answer × Conf)
answer none = none
answer (some (changed, conf)) = some (if changed then updated else unchanged, conf)

override_found : Table → Option Identity → Bytes → Conf → Option (Answer × Conf)
unfolding answer
override_found t none s conf = some (unknown, conf)
override_found t (some ident) s conf = answer (override_by_ident t ident s conf)

-- `conf_override_element`: it returns 0, 1 or -1.
pub override_element : Table → Bytes → Bytes → Conf → Option (Answer × Conf)
unfolding override_found
override_element t ident_str s conf =
    override_found t (identity_from_string t.identities ident_str) s conf

abbrev pub override_known : Table → Option Identity → Bytes → Conf → Option (Bool × Conf)
override_known t none s conf = some (false, conf)
override_known t (some ident) s conf = override_by_ident t ident s conf

-- `conf_override_element_by_id`, for a number that is not negative
unfoldable pub override_by_id : Table → ℕ → Bytes → Conf → Option (Bool × Conf)
override_by_id t id s conf = override_known t (identity_from_id t.identities id) s conf
