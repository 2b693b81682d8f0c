-- ===== src/Capture/LockFree/Slots.antt =====
-- Whole calls of the lock-free queue, one thread at a time: what a push and a pop return, how many
-- values fit, and which slots the two threads use.
use native.Mathlib.Nat.{add-zero}
use mmt_probe.Base.{
  ℕ, ◌+◌, ◌-◌, ◌%◌, ◌^◌, ◌≤◌, ◌<◌, ◌≡◌, ◌≢◌, refl, sym, ap, ◌∙◌, true, false, List, [], ◌∷◌, ◌++◌,
  none, some, length, get_or, get_or-set_self, Bool-cases, inl, inr, ◌⊎◌, ◌==◌, ==_iff,
  if◌then◌else◌, arith,
}
use mmt_probe.Base.Words.{mod_once}
use mmt_probe.Capture.LockFree.{
  Queue, success, full, empty, ring_init, push_check, push_write, push_publish, pop_check, pop_read,
  update_tail, queue_push, queue_pop, System, Step, push_begins, push_refused, push_writes,
  push_ends, pop_begins, pop_refused, pop_reads, pop_ends, bulk_begins, bulk_reads, bulk_ends,
  Reach, start, next,
}
use mmt_probe.Capture.LockFree.Inv.{
  count, IsValid, HasRoom, push_check-IsValid, push_check_same, push_write-IsValid,
  push_publish-IsValid, pop_check-IsValid, pop_check_same, update_tail-IsValid, third_next, Inv,
}
use mmt_probe.Capture.LockFree.Fifo.{Reach-Keeps}
use mmt_probe.Capture.LockFree.Keep.{
  window, contents, contents-push_write, contents-push_publish, contents-update_tail, contents-same,
}

module _ (q : Queue) (v : IsValid q) where
  -- A push is refused exactly when three slots are left.
  pub push_check-count : (push_check q).0 ≡ (if count q + 3 == q.size then false else true)
  unfolding push_check
  push_check-count = ground (arith, third_next q v)

  pub pop_check-count : (pop_check q).0 ≡ (if count q == 0 then false else true)
  unfolding pop_check
  pop_check-count = ground arith

  pub contents-push_check : contents (push_check q).1 ≡ contents q
  contents-push_check =
      let (a, b, c, d, e) = push_check_same q v in contents-same q (push_check q).1 a b c d

  pub contents-pop_check : contents (pop_check q).1 ≡ contents q
  contents-pop_check =
      let (a, b, c, d, e) = pop_check_same q v in contents-same q (pop_check q).1 a b c d

queue_push-full :
    (q : Queue) (val : ℕ) → (push_check q).0 ≡ false → queue_push q val ≡ (full, (push_check q).1)
unfolding queue_push
queue_push-full q val h = rw h

queue_push-success :
    (q : Queue) (val : ℕ)
    → (push_check q).0 ≡ true
    → queue_push q val ≡ (success, push_publish (push_write (push_check q).1 val))
unfolding queue_push
queue_push-success q val h = rw h

queue_pop-empty :
    (q : Queue) → (pop_check q).0 ≡ false → queue_pop q ≡ (empty, none, (pop_check q).1)
unfolding queue_pop
queue_pop-empty q h = rw h

queue_pop-success :
    (q : Queue)
    → (pop_check q).0 ≡ true
    → queue_pop q ≡ (
      success,
      some (pop_read (pop_check q).1),
      update_tail (pop_check q).1 (pop_check q).1.tail 1,
    )
unfolding queue_pop
queue_pop-success q h = rw h

module _ (q : Queue) (v : IsValid q) where
  HasRoom-push_write : (val : ℕ) → HasRoom q → HasRoom (push_write q val)
  unfolding push_write
  HasRoom-push_write val h = h

  pushed :
      (val : ℕ) → HasRoom q → contents (push_publish (push_write q val)) ≡ contents q ++ val ∷ []
  pushed val h =
      contents-push_publish (push_write q val) (push_write-IsValid q v val)
        (HasRoom-push_write val h)
      ∙ rw (contents-push_write q v val) (ap (λ x. contents q ++ x ∷ []) written_there)
    where
      written_there : get_or (push_write q val).cells (push_write q val).head 0 ≡ val
      written_there = unfold push_write in get_or-set_self q.cells q.head val 0 (omega (arith, v))

-- With three slots left `queue_push` returns QUEUE_FULL and the queue holds what it held; else it
-- returns QUEUE_SUCCESS and the queue holds the value behind the others. The invariant stays.
pub queue_push_lem :
    (q : Queue) (val : ℕ)
    → IsValid q
    → let (st, r) = queue_push q val in
      (st ≡ (if count q + 3 == q.size then full else success))
      × (contents r ≡ (if count q + 3 == q.size then contents q else contents q ++ val ∷ []))
      × IsValid r
queue_push_lem q val v =
    let w = push_check-IsValid q v in
    elim (Bool-cases (count q + 3 == q.size)) [
      | inl e ↦
          let no_room : (push_check q).0 ≡ false = push_check-count q v ∙ rw e in
          rw (e, queue_push-full q val no_room) (refl, contents-push_check q v, w.0)
      | inr e ↦
          let room : (push_check q).0 ≡ true = push_check-count q v ∙ rw e in
          let r = (push_check q).1 in
          rw (e, queue_push-success q val room)
            (
              refl,
              pushed r w.0 val (w.1 room) ∙ rw (contents-push_check q v),
              (push_publish-IsValid (push_write r val) (push_write-IsValid r w.0 val)
                  (HasRoom-push_write r w.0 val (w.1 room))).0,
            )
    ]

-- `queue_pop` returns QUEUE_EMPTY on a queue that holds nothing; else QUEUE_SUCCESS with the oldest
-- value, and the queue holds the others. The invariant stays.
pub queue_pop_lem :
    (q : Queue)
    → IsValid q
    → let (st, out, r) = queue_pop q in
      ((st ≡ empty) × (out ≡ none) × (contents q ≡ []) × (contents r ≡ []) × IsValid r)
      ⊎ ((val : ℕ) × (st ≡ success)
          × (out ≡ some val)
          × (contents q ≡ val ∷ contents r)
          × IsValid r)
queue_pop_lem q v =
    let w = pop_check-IsValid q v in
    let r = (pop_check q).1 in
    elim (Bool-cases (count q == 0)) [
      | inl e ↦
          let none_left : (pop_check q).0 ≡ false = pop_check-count q v ∙ rw e in
          let z : count q ≡ 0 = ground arith in
          let nil : contents q ≡ [] = ap (window q.cells q.size q.tail) z in
          rw (queue_pop-empty q none_left)
            (inl (refl, refl, nil, contents-pop_check q v ∙ nil, w.0))
      | inr e ↦
          let any : (pop_check q).0 ≡ true = pop_check-count q v ∙ rw e in
          let fits : r.tail + 1 ≤ r.size = omega (arith, w.0) in
          rw (queue_pop-success q any) (
            inr (
              pop_read r,
              refl,
              refl,
              sym (contents-pop_check q v)
                  ∙ contents-update_tail r w.0 1 fits (w.1 any)
                  ∙ rw add-zero,
              (update_tail-IsValid r w.0 1 fits (w.1 any)).0,
            ))
    ]

-- The slot that the producer fills next is none of the slots that the queue holds.
pub tmp_element-free :
    (q : Queue) (j : ℕ) → IsValid q → j < count q → q.head ≢ (q.tail + j) % q.size
tmp_element-free q j v h = ground (arith, mod_once (q.tail + j) q.size (omega arith))

-- The slot that the producer fills next is not the one before the tail, which the consumer took
-- last.
pub tmp_element-not_taken : (q : Queue) → IsValid q → q.head ≢ (q.tail + (q.size - 1)) % q.size
tmp_element-not_taken q v = ground (arith, mod_once (q.tail + (q.size - 1)) q.size (omega arith))

-- No step changes the size.
size-Step :
    {s : System} {i o : List ℕ} {t : System} → Step s i o t → Inv s → t.queue.size ≡ s.queue.size
unfolding push_write push_publish update_tail
size-Step (push_begins s val at room) v = (push_check_same s.queue v.valid).2
size-Step (push_refused s at _) v = (push_check_same s.queue v.valid).2
size-Step (push_writes s val at) v = refl
size-Step (push_ends s val at) v = refl
size-Step (pop_begins s at any) v = (pop_check_same s.queue v.valid).2
size-Step (pop_refused s at _) v = (pop_check_same s.queue v.valid).2
size-Step (pop_reads s at) v = refl
size-Step (pop_ends s val at) v = refl
size-Step (bulk_begins s at any) v = (pop_check_same s.queue v.valid).2
size-Step (bulk_reads s k read at ne) v = refl
size-Step (bulk_ends s read at) v = refl

module _ (memory : List ℕ) (size : ℕ) (stored : length memory ≡ size + 2) (some_size : 1 ≤ size)
    (small : size + 5 ≤ 2 ^ 32) where
  pub Reach-size :
      {ins outs : List ℕ} {s : System} → Reach memory size ins outs s → s.queue.size ≡ size + 2
  unfolding ring_init
  Reach-size start = omega arith
  Reach-size (next i o t r st) =
      size-Step st (Reach-Keeps memory size stored some_size small r).0 ∙ Reach-size r

  -- A queue made for `size` elements never holds more than `size - 1` of them.
  pub Reach-count :
      {ins outs : List ℕ} {s : System} → Reach memory size ins outs s → count s.queue + 1 ≤ size
  Reach-count r =
      let v = (Reach-Keeps memory size stored some_size small r).0 in
      omega (arith, Reach-size r, v.valid.tail_cached, v.valid.room)

-- A queue made for one element refuses every push, in every run.
pub ring_of_one_refuses :
    (memory : List ℕ)
    → length memory ≡ 3
    → {ins outs : List ℕ} {s : System} → Reach memory 1 ins outs s
    → (val : ℕ) → (queue_push s.queue val).0 ≡ full
ring_of_one_refuses memory stored {ins} {outs} {s} r val =
    let v = (Reach-Keeps memory 1 stored (omega arith) (omega arith) r).0 in
    let n : s.queue.size ≡ 3 = Reach-size memory 1 stored (omega arith) (omega arith) r in
    let c : count s.queue + 3 ≡ s.queue.size =
      omega (arith, n, Reach-count memory 1 stored (omega arith) (omega arith) r) in
    (queue_push_lem s.queue val v.valid).0 ∙ rw ((==_iff (count s.queue + 3) s.queue.size).1 c)
