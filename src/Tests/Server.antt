-- ===== src/Tests/Server.antt =====
-- Commands that reach the server of src/modules/dynamic_conf/server.c.
use mmt_probe.Base.{◌≡◌, inl, refl, false, true, List, [], ◌∷◌, ◌++◌, some, map, arith}
use mmt_probe.Base.Bytes.{Bytes, codes, eq_bytes, Lacks}
use mmt_probe.Config.{Identity, uint16, identity_from_string}
use mmt_probe.Config.Validate.{validate-number}
use mmt_probe.Dynamic.Bus.{Bus, do_nothing}
use mmt_probe.Dynamic.Update.{is_unsupported}
use mmt_probe.Dynamic.Update.Decode.{encode}
use mmt_probe.Dynamic.Update.Encode.{Line, settings, AllGood}
use mmt_probe.Dynamic.Server.{received, cmd_success, finished, command_bytes, processing}
use mmt_probe.Dynamic.Server.Command.{command_text, processing-update}

abbrev period : Identity
period = record { val = 1; data_type = uint16; ident = codes "p" }

abbrev line : Line
line = record { identity = period; value = codes "12" }

period_found : identity_from_string (period ∷ []) (codes "p") ≡ some period
unfolding identity_from_string eq_bytes
period_found = refl

period_supported : is_unsupported uint16 ≡ false
unfolding is_unsupported
period_supported = refl

line-AllGood : AllGood (period ∷ []) 3 100 (line ∷ [])
line-AllGood = (
  record {
    found = period_found;
    supported = period_supported;
    no_equals = omega arith;
    name_line = omega arith;
    name_string = omega arith;
    value_line = omega arith;
    has_value = cc;
    accepted = validate-number 3 period (codes "12") (omega arith) (inl refl);
  },
  omega arith,
)

-- a bus whose last message has been answered
abbrev answered_bus : Bus
answered_bus = record { nb_subscribers = 0; sub_lst = []; message = []; reply_code = 0 }

abbrev parts : List Bytes
parts = codes "upd" ∷ (codes "ate{\np=12\n}" ++ 0 ∷ 9 ∷ []) ∷ codes "later" ∷ []

processing-update_example :
    (d : Bus) × (processing
        (period ∷ [])
        3
        100
        true
        200
        (7 ∷ [])
        (map received parts)
        (some answered_bus)
      ≡ finished (some cmd_success) (some d))
    × (d.message ≡ command_bytes 3 (encode (settings (line ∷ []))))
    × (d.reply_code ≡ do_nothing)
processing-update_example =
    processing-update (period ∷ []) 3 100 200 line [] parts (9 ∷ codes "later") (7 ∷ [])
      answered_bus line-AllGood (omega arith) (omega arith) (omega arith) no_zero
      (omega arith, (omega arith, (omega arith, tt))) refl (omega arith)
  where
    no_zero : Lacks 0 (command_text (line ∷ []))
    no_zero = ground arith
