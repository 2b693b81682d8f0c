-- ===== src/Tests/Settings.antt =====
-- The overriding of configuration parameters, on a table of four.
use mmt_probe.Base.{
  ℕ, sym, zero, suc, ◌+◌, ◌-◌, ◌*◌, ◌≡◌, ap, refl, inl, true, false, List, [], ◌∷◌, ◌++◌, none,
  some, arith,
}
use mmt_probe.Base.Bytes.{Bytes, codes, eq_bytes}
use mmt_probe.Config.{Identity, no_support, bool, uint16, char_star}
use mmt_probe.Config.Channels.{no_channel}
use mmt_probe.Config.Override.{
  there, override_there, override_typed, override_flag, parse_bool, assign, Conf, Table,
  override_by_ident,
}
use mmt_probe.Config.Override.Outcome.{Fits}
use mmt_probe.Config.Override.Reading.{reading}
use mmt_probe.Dynamic.Update.{entry_bytes, Param, parse_command_parameters}
use mmt_probe.Monitor.{update, running, receive_message}
use mmt_probe.Monitor.Settings.{
  AllText, IsTable, override_param, last_value, receive_message-settings,
}

abbrev digits : ℕ → Bytes → ℕ
digits acc [] = acc
digits acc (c ∷ s) = digits (10 * acc + (c - 48)) s

abbrev enable : Identity
enable = record { val = 1; data_type = bool; ident = codes "enable" }

abbrev period : Identity
period = record { val = 2; data_type = uint16; ident = codes "period" }

abbrev four : Table
four = record {
  identities =
      record { val = 0; data_type = no_support; ident = codes "no-support" }
      ∷ enable
      ∷ period
      ∷ record { val = 3; data_type = char_star; ident = codes "source" }
      ∷ [];
  input_mode = 8;
  rtt_base = 9;
  is_output_channel = λ i. false;
  field = λ i. there;
  atoi = λ s. digits 0 s;
  atol = λ s. digits 0 s;
  parse_list = λ s. none;
}

abbrev zeroed : Conf
zeroed = record {
  enums = λ i. 0;
  flags = λ i. false;
  halves = λ i. 0;
  words = λ i. 0;
  texts = λ i. some [];
  channels = λ i. no_channel;
}

some-eq {ℓ} : {A : Type ℓ} {a b : A} → some a ≡ some b → a ≡ b
some-eq e = cc

four-IsTable : IsTable four
four-IsTable zero k e = sym (ap (λ j. j.val) (some-eq e))
four-IsTable (suc zero) k e = sym (ap (λ j. j.val) (some-eq e))
four-IsTable (suc (suc zero)) k e = sym (ap (λ j. j.val) (some-eq e))
four-IsTable (suc (suc (suc zero))) k e = sym (ap (λ j. j.val) (some-eq e))
four-IsTable (suc (suc (suc (suc i)))) k e = cc

zeroed-Fits : Fits zeroed
zeroed-Fits i = omega arith

-- the parameters 1 = "true", 2 = "70000" and 9 = "x" as the command stores them
abbrev stored : Bytes
stored =
    entry_bytes 1 (codes "true") ++ (entry_bytes 2 (codes "70000") ++ entry_bytes 9 (codes "x"))

zeroed-AllText : (ps : List Param) → AllText four four-IsTable stored zeroed ps
zeroed-AllText [] = tt
zeroed-AllText (p ∷ ps) = (([], refl), inl refl, zeroed-AllText ps)

receive_message-settings_example :
    (d : Conf) × ((receive_message
        (override_param four)
        4
        (update stored 25)
        (running 7)
        (some zeroed)).conf
      ≡ some d)
    × (reading four period d
        ≡ last_value four stored
            (parse_command_parameters stored 25 4)
            period
            (reading four period zeroed))
receive_message-settings_example =
    receive_message-settings four four-IsTable stored 4 25 (running 7) zeroed zeroed-Fits
      (zeroed-AllText (parse_command_parameters stored 25 4)) period refl

enabled :
    override_by_ident four enable (codes "true") zeroed
    ≡ some (true, record zeroed { flags = assign zeroed.flags 1 true })
unfolding override_by_ident override_there override_typed override_flag parse_bool eq_bytes
enabled = refl
