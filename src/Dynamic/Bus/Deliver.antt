-- ===== src/Dynamic/Bus/Deliver.antt =====
-- What the subscribers of the bus receive, and whose reply counts.
use mathlib.Core.Option
use mmt_probe.Base.{
  ℕ, zero, suc, ◌≡◌, ◌≢◌, refl, sym, ap, ◌∙◌, Bool, true, false, List, [], ◌∷◌, Option, none, some,
  ◌==◌, get_elem?, if◌then◌else◌, arith, Bool-cases, Option-cases, inl, inr,
}
use mmt_probe.Dynamic.Bus.{
  Message, Subscriber, Bus, Code, success, mark_unread, store, mark_read, check_reply, find_slot,
  call_of, make_call, call_at, Call, check_read, do_nothing, finish_check, subcriber_check,
}

find_slot-mark_unread :
    (pid : ℕ) (l : List Subscriber) → find_slot pid (mark_unread l) ≡ find_slot pid l
unfolding find_slot mark_unread
find_slot-mark_unread pid [] = refl
find_slot-mark_unread pid (s ∷ l) = rw (find_slot-mark_unread pid l)

find_slot-mark_read :
    (pid i : ℕ) (l : List Subscriber) → find_slot pid (mark_read i l) ≡ find_slot pid l
unfolding find_slot mark_read
find_slot-mark_read pid i [] = refl
find_slot-mark_read pid zero (s ∷ l) = refl
find_slot-mark_read pid (suc i) (s ∷ l) = rw (find_slot-mark_read pid i l)

abbrev marked : Bool → Subscriber → Subscriber
marked b s = record s { is_consumed = b }

get_elem?-mark_unread :
    (i : ℕ) (l : List Subscriber)
    → get_elem? (mark_unread l) i ≡ Option.map (marked false) (get_elem? l i)
unfolding mark_unread
get_elem?-mark_unread i [] = refl
get_elem?-mark_unread zero (s ∷ l) = refl
get_elem?-mark_unread (suc i) (s ∷ l) = get_elem?-mark_unread i l

get_elem?-mark_read :
    (i : ℕ) (l : List Subscriber)
    → get_elem? (mark_read i l) i ≡ Option.map (marked true) (get_elem? l i)
unfolding mark_read
get_elem?-mark_read i [] = refl
get_elem?-mark_read zero (s ∷ l) = refl
get_elem?-mark_read (suc i) (s ∷ l) = get_elem?-mark_read i l

store-success :
    (b c : Bus) (m : Message)
    → store m b ≡ (success, c)
    → (b.reply_code ≢ do_nothing)
      × (c ≡ record b { message = m; reply_code = do_nothing; sub_lst = mark_unread b.sub_lst })
unfolding store
store-success b c m e = elim (Bool-cases (b.reply_code == do_nothing)) [
  | inl h ↦ cc (rw h at e)
  | inr h ↦ (ground arith, sym (ap (λ (p : Code × Bus). p.1) (rw h at e)))
]

check_read-call_of :
    (b : Bus) (pid i : ℕ)
    → find_slot pid b.sub_lst ≡ some i
    → check_read true pid b ≡ call_of b.message i (get_elem? b.sub_lst i)
unfolding check_read call_at
check_read-call_of b pid i f = rw f

-- The call that a message is due to a process with a slot and a callback.
abbrev pub with_callback : Message → ℕ → Option (Message → ℕ) → Option Call
with_callback m i none = none
with_callback m i (some cb) = some (record { slot = i; callback = cb; message = m })

abbrev pub from_slot : Message → ℕ → Option Subscriber → Option Call
from_slot m i none = none
from_slot m i (some s) = with_callback m i s.callback

abbrev pub due_call : Message → List Subscriber → Option ℕ → Option Call
due_call m l none = none
due_call m l (some i) = from_slot m i (get_elem? l i)

call_of-unread :
    (m : Message) (i : ℕ) (o : Option Subscriber)
    → call_of m i (Option.map (marked false) o) ≡ from_slot m i o
unfolding call_of make_call
call_of-unread m i none = refl
call_of-unread m i (some s) = elim (Option-cases s.callback) [
  | inl e ↦ rw e refl
  | inr (cb, e) ↦ rw e refl
]

call_at-unread :
    (m : Message) (l : List Subscriber) (o : Option ℕ)
    → call_at m (mark_unread l) o ≡ due_call m l o
unfolding call_at
call_at-unread m l none = refl
call_at-unread m l (some i) = rw (get_elem?-mark_unread i l) (call_of-unread m i (get_elem? l i))

-- Every process with a slot and a callback is called on a message that has been stored.
pub store-due :
    (b : Bus) (m : Message) (pid : ℕ)
    → (b.reply_code == do_nothing) ≡ false
    → check_read true pid (store m b).1 ≡ due_call m b.sub_lst (find_slot pid b.sub_lst)
unfolding check_read store
store-due b m pid e =
    rw (e, find_slot-mark_unread pid b.sub_lst)
      (call_at-unread m b.sub_lst (find_slot pid b.sub_lst))

-- A message that `mmt_bus_publish` stores reaches each subscriber that has a callback: its next
-- check calls that callback with this message.
pub store-delivers :
    (b c : Bus) (m : Message) (pid i : ℕ) (s : Subscriber) (cb : Message → ℕ)
    → store m b ≡ (success, c)
    → find_slot pid b.sub_lst ≡ some i
    → get_elem? b.sub_lst i ≡ some s
    → s.callback ≡ some cb
    → check_read true pid c ≡ some (record { slot = i; callback = cb; message = m })
store-delivers b c m pid i s cb e f g h = rw ((store-success b c m e).1) (
    check_read-call_of _ pid i (find_slot-mark_unread pid b.sub_lst ∙ f)
    ∙ rw (get_elem?-mark_unread i b.sub_lst, g) (unfold call_of in rw h))

call_of-marked :
    (m : Message) (i : ℕ) (o : Option Subscriber) → call_of m i (Option.map (marked true) o) ≡ none
unfolding call_of
call_of-marked m i none = refl
call_of-marked m i (some s) = refl

-- Once a subscriber has replied, its checks find nothing, until the next message is stored.
pub check_reply-silent :
    (b : Bus) (pid i ret : ℕ)
    → find_slot pid b.sub_lst ≡ some i
    → check_read true pid (check_reply true i ret b) ≡ none
unfolding check_reply
check_reply-silent b pid i ret f =
    check_read-call_of _ pid i (find_slot-mark_read pid i b.sub_lst ∙ f)
    ∙ rw (get_elem?-mark_read i b.sub_lst) (call_of-marked b.message i (get_elem? b.sub_lst i))

make_call-inv :
    (m : Message) (i : ℕ) (o : Option (Message → ℕ)) (c : Call)
    → make_call m i o ≡ some c
    → (c.slot ≡ i) × (c.message ≡ m)
unfolding make_call
make_call-inv m i none c e = cc
make_call-inv m i (some cb) c e = (cc, cc)

call_of-inv :
    (m : Message) (i : ℕ) (o : Option Subscriber) (c : Call)
    → call_of m i o ≡ some c
    → (c.slot ≡ i) × (c.message ≡ m)
unfolding call_of
call_of-inv m i none c e = cc
call_of-inv m i (some s) c e = elim (Bool-cases s.is_consumed) [
  | inl h ↦ absurd (ground arith)
  | inr h ↦ make_call-inv m i s.callback c (rw h at e)
]

call_at-inv :
    (m : Message) (l : List Subscriber) (o : Option ℕ) (c : Call)
    → call_at m l o ≡ some c
    → (o ≡ some c.slot) × (c.message ≡ m)
unfolding call_at
call_at-inv m l none c e = cc
call_at-inv m l (some i) c e =
    let (h, k) = call_of-inv m i (get_elem? l i) c e in (ap some (sym h), k)

check_read-inv :
    (b : Bus) (pid : ℕ) (c : Call)
    → check_read true pid b ≡ some c
    → (find_slot pid b.sub_lst ≡ some c.slot) × (c.message ≡ b.message)
unfolding check_read
check_read-inv b pid c = call_at-inv b.message b.sub_lst (find_slot pid b.sub_lst) c

-- A check that nothing interrupts calls the callback on the message that stands on the bus, and
-- makes its reply the bus's if no reply has come before; the next check then has
-- nothing to call, and leaves the bus as it is.
pub subcriber_check-once :
    (b : Bus) (pid : ℕ) (c : Call)
    → check_read true pid b ≡ some c
    → let d = check_reply true c.slot (c.callback b.message) b in
      (subcriber_check true true pid (some b) ≡ some d)
      × (subcriber_check true true pid (some d) ≡ some d)
      × (check_read true pid d ≡ none)
      × (d.reply_code ≡ (if b.reply_code == do_nothing then c.callback b.message else b.reply_code))
unfolding subcriber_check finish_check
subcriber_check-once b pid c e =
    let (f, m) = check_read-inv b pid c e in
    (
      rw (e, m),
      rw (check_reply-silent b pid c.slot (c.callback b.message) f),
      check_reply-silent b pid c.slot (c.callback b.message) f,
      unfold check_reply in refl,
    )

-- The lost message: a subscriber has taken a message and runs its callback; another slot's reply
-- lets the next message through; the late reply then marks that next message as read by the
-- subscriber, which never gets it, and becomes the reply to it.
pub late_reply-loses :
    (b d : Bus) (pid other ret ret' : ℕ) (m : Message) (c : Call)
    → check_read true pid b ≡ some c
    → store m (check_reply true other ret b) ≡ (success, d)
    → let e = check_reply true c.slot ret' d in
      (check_read true pid e ≡ none) × (e.message ≡ m) × (e.reply_code ≡ ret')
late_reply-loses b d pid other ret ret' m c r st =
    let w = store-success (check_reply true other ret b) d m st in
    let f : find_slot pid d.sub_lst ≡ some c.slot = rw w.1 (
      find_slot-mark_unread pid _
      ∙ unfold check_reply in
        (find_slot-mark_read pid other b.sub_lst ∙ (check_read-inv b pid c r).0)) in
    (
      check_reply-silent d pid c.slot ret' f,
      unfold check_reply in rw w.1,
      unfold check_reply in rw w.1,
    )
