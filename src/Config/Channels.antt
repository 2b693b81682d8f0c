-- ===== src/Config/Channels.antt =====
-- The set of output channels: `output_channel_conf_t` of src/configure.h, and the functions of
-- src/configure.c that read one from the names in a value. What libconfuse finds in the braces of
-- a value is a parameter.
use mmt_probe.Base.{
  ℕ, Bool, true, false, not, ◌&&◌, ◌||◌, List, [], ◌∷◌, Option, none, some, take, if◌then◌else◌,
}
use mmt_probe.Base.Bytes.{Bytes, codes, eq_bytes}

-- The bits of the set.
pub record Channels : Type 0 where
  pub file : Bool
  pub redis : Bool
  pub kafka : Bool
  pub mongodb : Bool
  pub socket : Bool

-- CONF_OUTPUT_CHANNEL_NONE
abbrev pub no_channel : Channels
no_channel = record { file = false; redis = false; kafka = false; mongodb = false; socket = false }

-- CONF_OUTPUT_CHANNEL_FILE
abbrev pub file_channel : Channels
file_channel = record { file = true; redis = false; kafka = false; mongodb = false; socket = false }

-- `IS_DISABLE_OUTPUT`
abbrev pub is_disable_output : Channels → Bool
is_disable_output c = not (c.file || c.redis || c.kafka || c.mongodb || c.socket)

abbrev pub same_bit : Bool → Bool → Bool
same_bit true b = b
same_bit false b = not b

-- `==` on two sets
abbrev pub same_channels : Channels → Channels → Bool
same_channels a b =
    same_bit a.file b.file
    && same_bit a.redis b.redis
    && same_bit a.kafka b.kafka
    && same_bit a.mongodb b.mongodb
    && same_bit a.socket b.socket

-- `strncmp( s, t, n ) == 0`
abbrev pub eq_prefix : Bytes → Bytes → ℕ → Bool
eq_prefix s t n = eq_bytes (take n s) (take n t)

-- A turn of the loop of `_parse_output_channel`; an unexpected name is logged.
pub add_channel : Channels → Bytes → Channels
add_channel out channel_name =
    if eq_prefix channel_name (codes "file") 4
    then record out { file = true }
    else if eq_prefix channel_name (codes "kafka") 5
    then record out { kafka = true }
    else if eq_prefix channel_name (codes "redis") 5
    then record out { redis = true }
    else if eq_prefix channel_name (codes "mongodb") 5
    then record out { mongodb = true }
    else if eq_prefix channel_name (codes "socket") 5
    then record out { socket = true }
    else out

abbrev pub add_channels : Channels → List Bytes → Channels
add_channels out [] = out
add_channels out (name ∷ names) = add_channels (add_channel out name) names

-- `_parse_output_channel`, on the names that the library has found
unfoldable pub parse_names : List Bytes → Channels
parse_names names = add_channels file_channel names

-- `conf_parse_output_channel`: `none` is CFG_PARSE_ERROR.
unfoldable pub parse_output_channel : Option (List Bytes) → Channels
parse_output_channel none = file_channel
parse_output_channel (some names) = parse_names names
