-- ===== src/Monitor.antt =====
-- The monitor process: `_create_sub_processes` of `src/main.c`, and the commands that it takes from
-- the bus, `_receive_message` of `src/modules/dynamic_conf/dynamic_conf.c`. What the operating
-- system answers to `fork` and `waitpid` is an argument of a turn of the loop.
pub mod Commands
pub mod Restart
pub mod Settings
use mmt_probe.Base.{
  ℕ, Bool, true, false, ◌&&◌, ◌||◌, not, List, [], ◌∷◌, ◌++◌, Option, none, some, ◌==◌,
  if◌then◌else◌,
}
use mmt_probe.Base.Bytes.{Bytes}
use mmt_probe.Dynamic.Update.{Param, parse_command_parameters}

-- An entry of `children_pids`: PID_NEED_TO_CREATE (0), PID_NEED_TO_STOP (-1), or the process id.
pub data Child : Type 0 where
  need_to_create : Child
  need_to_stop : Child
  running : ℕ → Child

-- The main processing and the control process.
pub record Children : Type 0 where
  pub processing : Child
  pub control : Child

-- `waitpid( ANY_CHILD_PROCESS, &status, WNOHANG )`: an error, no child that changed its state, or
-- a child that ended, and whether it exited with EXIT_SUCCESS.
pub data Waited : Type 0 where
  wait_error : Waited
  nobody : Waited
  ended_child : ℕ → Bool → Waited

-- Steps 1 and 2: `fork` where the entry asks for it. `none`: the fork failed, and ABORT.
unfoldable pub create_child : Child → Option ℕ → Option Child
create_child need_to_create none = none
create_child need_to_create (some pid) = some (running pid)
create_child need_to_stop forked = some need_to_stop
create_child (running pid) forked = some (running pid)

-- `child_pid == children_pids[i]`, for a process id of a child that ended
abbrev pub is_child : ℕ → Child → Bool
is_child pid need_to_create = false
is_child pid need_to_stop = false
is_child pid (running p) = p == pid

abbrev pub is_stopped : Child → Bool
is_stopped need_to_create = false
is_stopped need_to_stop = true
is_stopped (running p) = false

-- Step 4: what becomes of a child that ended
abbrev pub status_of : Bool → Child
status_of exited_normally = if exited_normally then need_to_stop else need_to_create

-- "update status of the child": the first entry of the process id, of `nb_children_processes`.
unfoldable pub update_status : Bool → ℕ → Bool → Children → Children
update_status is_dynamic pid exited_normally c =
    if is_child pid c.processing
    then record { processing = status_of exited_normally; control = c.control }
    else if is_dynamic && is_child pid c.control
    then record { processing = c.processing; control = status_of exited_normally }
    else c

-- "all children exited normally"
unfoldable pub all_stopped : Bool → Children → Bool
all_stopped is_dynamic c = is_stopped c.processing && (not is_dynamic || is_stopped c.control)

-- How a turn of the loop ends: ABORT, `break`, or `_next_iteration`.
pub data Turn : Type 0 where
  aborted : Turn
  broken : Turn
  goes_on : Children → Turn

-- Steps 3 to 5
unfoldable pub check_children : Bool → Waited → Children → Turn
check_children is_dynamic wait_error c = aborted
check_children is_dynamic nobody c = goes_on c
check_children is_dynamic (ended_child pid exited_normally) c =
    let updated = update_status is_dynamic pid exited_normally c in
    if all_stopped is_dynamic updated then broken else goes_on updated

abbrev pub with_control : Bool → Waited → Child → Option Child → Turn
with_control is_dynamic waited processing none = aborted
with_control is_dynamic waited processing (some control) =
    check_children is_dynamic waited (record { processing = processing; control = control })

abbrev pub with_processing : Bool → Option ℕ → Waited → Child → Option Child → Turn
with_processing is_dynamic forked_control waited control none = aborted
with_processing is_dynamic forked_control waited control (some processing) =
    with_control is_dynamic waited processing
      (if is_dynamic then create_child control forked_control else some control)

-- A turn of the loop, up to `_next_iteration`: the answers to the two forks and to `waitpid`.
unfoldable pub turn : Bool → Option ℕ → Option ℕ → Waited → Children → Turn
turn is_dynamic forked forked_control waited c =
    with_processing is_dynamic forked_control waited c.control (create_child c.processing forked)

-- `command_t`, its `id` as a sum: DYN_CONF_CMD_START, _STOP, _UPDATE with `parameter` and
-- `parameter_length`, and the ids that the switch does not name.
pub data Command : Type 0 where
  start : Command
  stop : Command
  update : Bytes → ℕ → Command
  unsupported : Command

pub data Reply : Type 0 where
  reply_ok : Reply
  child_running : Reply
  child_stopping : Reply
  do_nothing : Reply

-- The signals that `kill` sends to the processing process.
pub data Signal : Type 0 where
  sigint : ℕ → Signal
  sigres : ℕ → Signal

-- `dynamic_conf_need_to_restart_to_update` of `agency.c`; CONF_ATT__NONE is 0.
abbrev pub need_to_restart_to_update : ℕ → Bool
need_to_restart_to_update ident = not (ident == 0)

abbrev pub any_restart : List Param → Bool
any_restart [] = false
any_restart (p ∷ ps) = need_to_restart_to_update p.ident || any_restart ps

-- `conf_override_element_by_id` is a parameter, on a configuration of any type: it gets the
-- buffer that holds the value, and the parameter that tells where. `size` is the number of the
-- identities that there are.
module _ {ℓ} {Conf : Type ℓ} (override : Bytes → Param → Conf → Conf) (size : ℕ) where
  abbrev pub override_all : Bytes → List Param → Conf → Conf
  override_all buffer [] conf = conf
  override_all buffer (p ∷ ps) conf = override_all buffer ps (override buffer p conf)

  -- What the handler replies, and leaves as the entry of the child and as the configuration, and
  -- the signal that it sends.
  pub record Handled : Type ℓ where
    pub reply : Reply
    pub pid : Child
    pub conf : Conf
    pub sent : Option Signal

  -- the end of the case DYN_CONF_CMD_UPDATE
  pub restart_child : Bool → Child → Conf → Handled
  restart_child restarts (running pid) conf =
      if restarts
      then record { reply = reply_ok; pid = running pid; conf = conf; sent = some (sigres pid) }
      else record { reply = do_nothing; pid = running pid; conf = conf; sent = none }
  restart_child restarts need_to_stop conf = record {
    reply = reply_ok;
    pid = need_to_stop;
    conf = conf;
    sent = none;
  }
  restart_child restarts need_to_create conf = record {
    reply = do_nothing;
    pid = need_to_create;
    conf = conf;
    sent = none;
  }

  pub receive_message : Command → Child → Conf → Handled
  receive_message start (running pid) conf = record {
    reply = child_running;
    pid = running pid;
    conf = conf;
    sent = none;
  }
  receive_message start _ conf = record {
    reply = reply_ok;
    pid = need_to_create;
    conf = conf;
    sent = none;
  }
  receive_message stop (running pid) conf = record {
    reply = reply_ok;
    pid = running pid;
    conf = conf;
    sent = some (sigint pid);
  }
  receive_message stop pid conf = record {
    reply = child_stopping;
    pid = pid;
    conf = conf;
    sent = none;
  }
  receive_message (update parameter parameter_length) pid conf =
      let params = parse_command_parameters parameter parameter_length size in
      restart_child (any_restart params) pid (override_all parameter params conf)
  receive_message unsupported pid conf = record {
    reply = do_nothing;
    pid = pid;
    conf = conf;
    sent = none;
  }
