-- ===== src/Dynamic/Bus/Publish.antt =====
-- When `mmt_bus_publish` takes a message, and how long the message stays.
use mmt_probe.Base.{
  ℕ, ◌≤◌, ◌≡◌, ◌<◌, ◌≢◌, ◌⊎◌, inl, inr, refl, ◌∙◌, Bool, true, false, Bool-cases, ltb, ◌==◌, List,
  Option, none, some, length, arith,
}
use mmt_probe.Dynamic.Bus.{
  Message, Subscriber, Bus, success, store, check_reply, do_nothing, max_message_size, publish,
  subscribe, unsubscribe, subscribed, unsubscribed, register, unregister, Scan, mistake, no_slot,
  registered, check_read, find_slot,
}
use mmt_probe.Dynamic.Bus.Deliver.{due_call, store-due}
use mmt_probe.Dynamic.Bus.Count.{Step, stores, replies, subscribes, unsubscribes}

-- Either the message fits, the mutex is locked and the message before has been answered, and then
-- `mmt_bus_publish` succeeds, and the new message stands on the bus, not answered, and the next check of
-- any process that has a slot with a callback calls this callback on it, also when the process has
-- answered before; or one of these fails, and then it does not succeed, and the bus stays as it is.
pub publish_lem :
    (locked : Bool) (m : Message) (b : Bus) (pid : ℕ)
    → let (c, o) = publish locked m (some b) in
      ((length m ≤ max_message_size)
        × (locked ≡ true)
        × (b.reply_code ≢ do_nothing)
        × (c ≡ success)
        × ((d : Bus) × (o ≡ some d)
            × (d.message ≡ m)
            × (d.reply_code ≡ do_nothing)
            × (check_read true pid d ≡ due_call m b.sub_lst (find_slot pid b.sub_lst))))
      ⊎ (((max_message_size < length m) ⊎ ((locked ≡ false) ⊎ (b.reply_code ≡ do_nothing)))
          × (c ≢ success)
          × (o ≡ some b))
unfolding publish store
publish_lem locked m b pid = elim (Bool-cases (ltb max_message_size (length m))) [
  | inl e ↦ inr (inl (ground arith), ground arith, ground arith)
  | inr e ↦ elim (Bool-cases locked) [
    | inl l ↦ elim (Bool-cases (b.reply_code == do_nothing)) [
      | inl r ↦ inr (inr (inr (ground arith)), ground arith, ground arith)
      | inr r ↦ inl (
        ground arith,
        l,
        ground arith,
        ground arith,
        ((store m b).1, ground arith, ground arith, ground arith, store-due b m pid r),
      )
    ]
    | inr l ↦ inr (inr (inl l), ground arith, ground arith)
  ]
]

subscribed-message :
    (b c : Bus) (done : Bool) (o : Scan) → subscribed b o ≡ some (done, c) → c.message ≡ b.message
unfolding subscribed
subscribed-message b c done mistake e = cc
subscribed-message b c done no_slot e = ground arith
subscribed-message b c done (registered r) e = ground arith

unsubscribed-message :
    (b : Bus) (o : Option (List Subscriber)) → (unsubscribed b o).1.message ≡ b.message
unfolding unsubscribed
unsubscribed-message b none = refl
unsubscribed-message b (some r) = refl

Step-message : {b c : Bus} → Step b c → b.reply_code ≡ do_nothing → c.message ≡ b.message
unfolding store check_reply
Step-message (stores m b) h = ground arith
Step-message (replies i ret b) h = refl
Step-message (subscribes pid cb done b c ne e) h =
    unfold subscribe in subscribed-message b c done (register pid cb b.sub_lst) e
Step-message (unsubscribes pid b ne) h =
    unfold unsubscribe in unsubscribed-message b (unregister pid b.sub_lst)

-- Steps of which each begins while no reply has come.
pub data Quiet (b : Bus) : Bus → Type 0 where
  here : Quiet b b
  next : {c d : Bus} → Quiet b c → c.reply_code ≡ do_nothing → Step c d → Quiet b d

-- Whatever the users of the bus do, a message stays on it until it has been answered.
pub Quiet-message : {b c : Bus} → Quiet b c → c.message ≡ b.message
Quiet-message here = refl
Quiet-message (next q h s) = Step-message s h ∙ Quiet-message q
