-- ===== src/Dynamic/Bus.antt =====
-- The communication bus in shared memory: src/modules/dynamic_conf/mmt_bus.c, and the reply codes
-- of command.h beside it. Each critical section is one function; `locked` is whether
-- `pthread_mutex_lock` returned 0. A `struct mmt_bus` that is not there (`bus == NULL`) is `none`.
pub mod Publish
pub mod Count
pub mod Deliver
pub mod Slots
use mathlib.Core.Option
use mmt_probe.Base.{
  ℕ, zero, suc, ◌+◌, ◌%◌, get_elem?, Bool, true, false, List, [], ◌∷◌, Option, none, some, length,
  map, ltb, ◌==◌, if◌then◌else◌,
}

-- `sizeof( command_t )`: an id and a length of two bytes each, and 10000 bytes of parameters.
abbrev pub max_message_size : ℕ
max_message_size = 10004

abbrev pub max_subscribers : ℕ
max_subscribers = 3

-- DYN_CONF_CMD_REPLY_DO_NOTHING
abbrev pub do_nothing : ℕ
do_nothing = 1000

abbrev pub Message : Type 0
Message = List ℕ

-- The callback with its user data: what it replies to a message. A process number of 0 marks a
-- slot that is free.
pub record Subscriber : Type 0 where
  pub pid : ℕ
  pub is_consumed : Bool
  pub callback : Option (Message → ℕ)

-- `message` is the first `message_size` bytes of the buffer.
pub record Bus : Type 0 where
  pub nb_subscribers : ℕ
  pub sub_lst : List Subscriber
  pub message : Message
  pub reply_code : ℕ

pub data Code : Type 0 where
  success lock_error over_msg_size no_init old_msg_no_consume : Code

abbrev pub free_slot : Subscriber
free_slot = record { pid = 0; is_consumed = false; callback = none }

-- What `mmap` and `memset` leave.
abbrev pub fresh : Bus
fresh = record {
  nb_subscribers = 0;
  sub_lst = free_slot ∷ free_slot ∷ free_slot ∷ [];
  message = [];
  reply_code = 0;
}

-- The Boolean is false where the bus is there already.
abbrev pub create : Option Bus → Bool × Option Bus
create (some b) = (false, some b)
create none = (true, some fresh)

unfoldable pub mark_unread : List Subscriber → List Subscriber
mark_unread [] = []
mark_unread (s ∷ l) = record s { is_consumed = false } ∷ mark_unread l

-- The critical section of `mmt_bus_publish` that stores the message.
unfoldable pub store : Message → Bus → Code × Bus
store m b = if b.reply_code == do_nothing then (old_msg_no_consume, b) else (
  success,
  record b { message = m; reply_code = do_nothing; sub_lst = mark_unread b.sub_lst },
)

-- `mmt_bus_publish` by a caller that does not wait (`reply_code == NULL`).
pub publish : Bool → Message → Option Bus → Code × Option Bus
publish locked m none = (no_init, none)
publish locked m (some b) =
    if ltb max_message_size (length m)
    then (over_msg_size, some b)
    else if locked
    then (let (c, b') = store m b in (c, some b'))
    else (lock_error, some b)

-- What one round of the waiting loop of `mmt_bus_publish` finds.
pub data Poll : Type 0 where
  unlockable waiting : Poll
  replied : ℕ → Poll

abbrev pub poll : Bool → Bus → Poll
poll locked b =
    if locked
    then (if b.reply_code == do_nothing then waiting else replied b.reply_code)
    else unlockable

-- The first slot of a process: `sub->pid == pid`.
unfoldable pub find_slot : ℕ → List Subscriber → Option ℕ
find_slot pid [] = none
find_slot pid (s ∷ l) = if s.pid == pid then some 0 else Option.map suc (find_slot pid l)

-- A callback to be made: the slot, the callback and a copy of the message.
pub record Call : Type 0 where
  pub slot : ℕ
  pub callback : Message → ℕ
  pub message : Message

make_call : Message → ℕ → Option (Message → ℕ) → Option Call
make_call m i none = none
make_call m i (some cb) = some (record { slot = i; callback = cb; message = m })

pub call_of : Message → ℕ → Option Subscriber → Option Call
unfolding make_call
call_of m i none = none
call_of m i (some s) = if s.is_consumed then none else make_call m i s.callback

pub call_at : Message → List Subscriber → Option ℕ → Option Call
call_at m l none = none
call_at m l (some i) = call_of m i (get_elem? l i)

-- The first critical section of `mmt_bus_subcriber_check`, with the tests around it.
pub check_read : Bool → ℕ → Bus → Option Call
check_read locked pid b =
    if locked then call_at b.message b.sub_lst (find_slot pid b.sub_lst) else none

unfoldable pub mark_read : ℕ → List Subscriber → List Subscriber
mark_read i [] = []
mark_read zero (s ∷ l) = record s { is_consumed = true } ∷ l
mark_read (suc i) (s ∷ l) = s ∷ mark_read i l

-- The second critical section of `mmt_bus_subcriber_check`, after the callback returned `ret`.
unfoldable pub check_reply : Bool → ℕ → ℕ → Bus → Bus
check_reply locked i ret b =
    if locked
    then record b {
      sub_lst = mark_read i b.sub_lst;
      reply_code = if b.reply_code == do_nothing then ret else b.reply_code;
    }
    else b

pub finish_check : Bool → Bus → Option Call → Bus
finish_check locked b none = b
finish_check locked b (some c) = check_reply locked c.slot (c.callback c.message) b

-- The whole of `mmt_bus_subcriber_check`, where no other thread runs between its two sections.
pub subcriber_check : Bool → Bool → ℕ → Option Bus → Option Bus
subcriber_check first second pid none = none
subcriber_check first second pid (some b) = some (finish_check second b (check_read first pid b))

-- What the scan of `mmt_bus_subscribe` ends with: MY_MISTAKE ends the process (`mistake`).
pub data Scan : Type 0 where
  mistake no_slot : Scan
  registered : List Subscriber → Scan

behind : Subscriber → Scan → Scan
behind s mistake = mistake
behind s no_slot = no_slot
behind s (registered l) = registered (s ∷ l)

unfoldable pub register : ℕ → (Message → ℕ) → List Subscriber → Scan
unfolding behind
register pid cb [] = no_slot
register pid cb (s ∷ l) =
    if s.pid == pid
    then mistake
    else if s.pid == 0
    then registered (record { pid = pid; is_consumed = true; callback = some cb } ∷ l)
    else behind s (register pid cb l)

-- `none` where the process has exited; `uint8_t nb_subscribers` goes round at 256.
subscribed : Bus → Scan → Option (Bool × Bus)
subscribed b mistake = none
subscribed b no_slot = some (false, b)
subscribed b (registered l) =
    some (true, record b { sub_lst = l; nb_subscribers = (b.nb_subscribers + 1) % 256 })

unfoldable pub subscribe : Bool → ℕ → (Message → ℕ) → Bus → Option (Bool × Bus)
unfolding register subscribed
subscribe locked pid cb b =
    if locked then subscribed b (register pid cb b.sub_lst) else some (false, b)

-- `pid = 0` at the first slot of the process.
pub unregister : ℕ → List Subscriber → Option (List Subscriber)
unregister pid [] = none
unregister pid (s ∷ l) =
    if s.pid == pid
    then some (record s { pid = 0 } ∷ l)
    else Option.map (λ r. s ∷ r) (unregister pid l)

unsubscribed : Bus → Option (List Subscriber) → Bool × Bus
unsubscribed b none = (false, b)
unsubscribed b (some l) =
    (true, record b { sub_lst = l; nb_subscribers = (b.nb_subscribers + 255) % 256 })

pub unsubscribe : Bool → ℕ → Bus → Bool × Bus
unfolding unregister unsubscribed
unsubscribe locked pid b = if locked then unsubscribed b (unregister pid b.sub_lst) else (false, b)
