-- ===== src/Tests/Dynamic.antt =====
-- The bus of `src/modules/dynamic_conf/mmt_bus.c` with two processes on it, and the values of
-- `src/configure_override.c`.
use mmt_probe.Base.{
  ℕ, ◌≤◌, ◌<◌, ◌≡◌, ◌≢◌, ◌⊎◌, refl, Bool, true, false, [], ◌∷◌, none, some, length, ◌==◌,
  if◌then◌else◌, arith,
}
use mmt_probe.Base.Bytes.{codes}
use mmt_probe.Config.{Identity, bool, uint16, char_star}
use mmt_probe.Dynamic.Bus.{
  Message, Subscriber, Bus, success, fresh, do_nothing, max_message_size, store, publish,
  mark_unread, find_slot, check_read, check_reply, mark_read, subcriber_check, subscribe, register,
}
use mmt_probe.Dynamic.Bus.Publish.{publish_lem}
use mmt_probe.Dynamic.Bus.Count.{Reach, Reach-IsCounted, IsCounted, stores, subscribes}
use mmt_probe.Dynamic.Bus.Deliver.{due_call, store-delivers, subcriber_check-once, late_reply-loses}

abbrev answer : Message → ℕ
answer m = 0

abbrev ignore : Message → ℕ
ignore m = 1000

abbrev order : Message
order = 1 ∷ []

abbrev reader : Bool → ℕ → (Message → ℕ) → Subscriber
reader b pid cb = record { pid = pid; is_consumed = b; callback = some cb }

abbrev free : Subscriber
free = record { pid = 0; is_consumed = false; callback = none }

-- the processes 5 and 6, and nothing published yet
abbrev quiet : Bus
quiet = record {
  nb_subscribers = 2;
  sub_lst = reader true 5 answer ∷ reader true 6 ignore ∷ free ∷ [];
  message = [];
  reply_code = 0;
}

-- the message is on the bus, and neither has read it
abbrev loaded : Bus
loaded = record {
  nb_subscribers = 2;
  sub_lst = reader false 5 answer ∷ reader false 6 ignore ∷ free ∷ [];
  message = order;
  reply_code = 1000;
}

store-quiet : store order quiet ≡ (success, loaded)
unfolding store mark_unread
store-quiet = refl

publish_lem_example :
    let (c, o) = publish true order (some quiet) in
    ((length order ≤ max_message_size)
      × (true ≡ true)
      × (quiet.reply_code ≢ do_nothing)
      × (c ≡ success)
      × ((d : Bus) × (o ≡ some d)
          × (d.message ≡ order)
          × (d.reply_code ≡ do_nothing)
          × (check_read true 5 d ≡ due_call order quiet.sub_lst (find_slot 5 quiet.sub_lst))))
    ⊎ (((max_message_size < length order) ⊎ ((true ≡ false) ⊎ (quiet.reply_code ≡ do_nothing)))
        × (c ≢ success)
        × (o ≡ some quiet))
publish_lem_example = publish_lem true order quiet 5

abbrev one_reader : Bus
one_reader = record {
  nb_subscribers = 1;
  sub_lst = reader true 5 answer ∷ free ∷ free ∷ [];
  message = [];
  reply_code = 0;
}

first_subscribes : subscribe true 5 answer fresh ≡ some (true, one_reader)
unfolding subscribe register
first_subscribes = refl

Reach-IsCounted_example : IsCounted (store order one_reader).1
Reach-IsCounted_example = Reach-IsCounted (
    Reach.next
      (Reach.next Reach.start
        (subscribes 5 answer true fresh one_reader (omega arith) first_subscribes))
      (stores order one_reader))

find-five : find_slot 5 quiet.sub_lst ≡ some 0
unfolding find_slot
find-five = refl

order_delivered :
    check_read true 5 loaded ≡ some (record { slot = 0; callback = answer; message = order })
order_delivered =
    store-delivers quiet loaded order 5 0 (reader true 5 answer) answer store-quiet find-five refl
      refl

subcriber_check-once_example :
    let d = check_reply true 0 (answer order) loaded in
    (subcriber_check true true 5 (some loaded) ≡ some d)
    × (subcriber_check true true 5 (some d) ≡ some d)
    × (check_read true 5 d ≡ none)
    × (d.reply_code ≡ (if 1000 == do_nothing then 0 else 1000))
subcriber_check-once_example =
    subcriber_check-once loaded 5 (record { slot = 0; callback = answer; message = order })
      order_delivered

-- the process 6 replies to the first message while the process 5 still runs its callback
abbrev overtaken : Bus
overtaken = record {
  nb_subscribers = 2;
  sub_lst = reader false 5 answer ∷ reader false 6 ignore ∷ free ∷ [];
  message = 2 ∷ [];
  reply_code = 1000;
}

second_store : store (2 ∷ []) (check_reply true 1 3 loaded) ≡ (success, overtaken)
unfolding store check_reply mark_read mark_unread
second_store = refl

late_reply-loses_example :
    let e = check_reply true 0 0 overtaken in
    (check_read true 5 e ≡ none) × (e.message ≡ 2 ∷ []) × (e.reply_code ≡ 0)
late_reply-loses_example =
    late_reply-loses loaded overtaken 5 1 3 0 (2 ∷ [])
      (record { slot = 0; callback = answer; message = order }) order_delivered second_store

abbrev probe_id : Identity
probe_id = record { val = 1; data_type = uint16; ident = codes "probe-id" }

abbrev enable : Identity
enable = record { val = 2; data_type = bool; ident = codes "enable" }

abbrev mode : Identity
mode = record { val = 3; data_type = char_star; ident = codes "input.mode" }
