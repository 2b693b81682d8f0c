-- ===== src/Monitor/Commands.antt =====
-- What the commands of the bus do to the entry of the processing process.
use mmt_probe.Base.{ℕ, ◌≡◌, Bool, true, false, ◌&&◌, Option, none, some}
use mmt_probe.Base.Bytes.{Bytes}
use mmt_probe.Dynamic.Update.{parse_command_parameters}
use mmt_probe.Monitor.{
  Child, need_to_create, need_to_stop, running, Command, start, stop, update, unsupported, Signal,
  sigint, sigres, any_restart,
}

abbrev pub is_running : Child → Bool
is_running need_to_create = false
is_running need_to_stop = false
is_running (running pid) = true

-- Does the text of an update name a parameter other than CONF_ATT__NONE?
abbrev pub asks_restart : ℕ → Bytes → ℕ → Bool
asks_restart size b n = any_restart (parse_command_parameters b n size)

-- What a command does to the entry `c`, with what it sends.
pub data Effect (size : ℕ) : Command → Child → Child → Option Signal → Type 0 where
  refuses : (pid : ℕ) → Effect size start (running pid) (running pid) none
  pending : Effect size start need_to_create need_to_create none
  creates : Effect size start need_to_stop need_to_create none
  interrupts : (pid : ℕ) → Effect size stop (running pid) (running pid) (some (sigint pid))
  stops_nothing : (c : Child) → is_running c ≡ false → Effect size stop c c none
  restarts :
      (b : Bytes) (n pid : ℕ)
      → asks_restart size b n ≡ true
      → Effect size (update b n) (running pid) (running pid) (some (sigres pid))
  keeps :
      (b : Bytes) (n : ℕ) (c : Child)
      → asks_restart size b n && is_running c ≡ false
      → Effect size (update b n) c c none
  ignores : (c : Child) → Effect size unsupported c c none
