-- ===== src/Capture/LockFree/Refine.antt =====
-- The contract of the lock-free queue between calls: it is a bounded first-in first-out list. The
-- abstract queue is a list and its capacity, with no indices, caches or slots.
use mmt_probe.Base.{
  ℕ, zero, suc, ◌+◌, ◌%◌, ◌≡◌, refl, sym, ap, ◌∙◌, List, [], ◌∷◌, ◌++◌, Option, none, some, length,
  get_or, length-append, true, false, Bool-cases, inl, inr, ◌==◌, if◌then◌else◌, arith,
}
use mmt_probe.Capture.LockFree.{
  Queue, Status, success, full, empty, queue_push, queue_pop, push_check, push_write, push_publish,
  pop_check, update_tail,
}
use mmt_probe.Capture.LockFree.Inv.{count, IsValid}
use mmt_probe.Capture.LockFree.Keep.{window, contents}
use mmt_probe.Capture.LockFree.Slots.{queue_push_lem, queue_pop_lem}

pub data Call : Type 0 where
  push : ℕ → Call
  pop : Call

-- what a call returns, and what it leaves in `*val`
pub data Answer : Type 0 where
  pushed : Status → Answer
  popped : Status → Option ℕ → Answer

-- A call of the code.
pub call : Call → Queue → Answer × Queue
call (push val) q = let (st, r) = queue_push q val in (pushed st, r)
call pop q = let (st, out, r) = queue_pop q in (popped st out, r)

-- The abstract queue.
pub fifo_call : ℕ → Call → List ℕ → Answer × List ℕ
fifo_call capacity (push val) l =
    if length l == capacity then (pushed full, l) else (pushed success, l ++ val ∷ [])
fifo_call capacity pop [] = (popped empty none, [])
fifo_call capacity pop (x ∷ l) = (popped success (some x), l)

-- A run is its answers and the state it ends in.
pub calls : List Call → Queue → List Answer × Queue
calls [] q = ([], q)
calls (c ∷ cs) q = let (a, r) = call c q in let (more, s) = calls cs r in (a ∷ more, s)

pub fifo_calls : ℕ → List Call → List ℕ → List Answer × List ℕ
fifo_calls capacity [] l = ([], l)
fifo_calls capacity (c ∷ cs) l =
    let (a, r) = fifo_call capacity c l in let (more, s) = fifo_calls capacity cs r in (a ∷ more, s)

-- The queue holds the list, and has room for `capacity` values.
pub record Represents (capacity : ℕ) (l : List ℕ) (q : Queue) : Type 0 where
  pub valid : IsValid q
  pub holds : contents q ≡ l
  pub sized : q.size ≡ capacity + 3

length-window : (cells : List ℕ) (n t d : ℕ) → length (window cells n t d) ≡ d
length-window cells n t zero = refl
length-window cells n t (suc d) = omega (
  arith,
  length-append (window cells n t d) (get_or cells ((t + d) % n) 0 ∷ []),
  length-window cells n t d,
)

queue_push-size : (q : Queue) (val : ℕ) → (queue_push q val).1.size ≡ q.size
unfolding queue_push push_check push_write push_publish
queue_push-size q val = ground arith

queue_pop-size : (q : Queue) → (queue_pop q).2.size ≡ q.size
unfolding queue_pop pop_check update_tail
queue_pop-size q = ground arith

at_capacity :
    (n capacity c size : ℕ) → n ≡ c → size ≡ capacity + 3 → (n == capacity) ≡ (c + 3 == size)
at_capacity n capacity c size h z = ground arith

push_refines :
    (capacity val : ℕ) (l : List ℕ) (q : Queue)
    → Represents capacity l q
    → let (st, r) = queue_push q val in
      (pushed st ≡ (fifo_call capacity (push val) l).0)
      × Represents capacity (fifo_call capacity (push val) l).1 r
unfolding fifo_call
push_refines capacity val l q v =
    let (st, c, w) = queue_push_lem q val v.valid in
    let n : length l ≡ count q =
      ap length (sym v.holds) ∙ length-window q.cells q.size q.tail (count q) in
    let z = queue_push-size q val ∙ v.sized in
    elim (Bool-cases (count q + 3 == q.size)) [
      | inl e ↦
          let k : (length l == capacity) ≡ true =
            at_capacity (length l) capacity (count q) q.size n v.sized ∙ e in
          rw (k, st, e) (refl, record { valid = w; holds = c ∙ rw e v.holds; sized = z })
      | inr e ↦
          let k : (length l == capacity) ≡ false =
            at_capacity (length l) capacity (count q) q.size n v.sized ∙ e in
          rw (k, st, e)
            (
              refl,
              record { valid = w; holds = c ∙ rw e (ap (λ m. m ++ val ∷ []) v.holds); sized = z },
            )
    ]

pop_refines :
    (capacity : ℕ) (l : List ℕ) (q : Queue)
    → Represents capacity l q
    → let (st, out, r) = queue_pop q in
      (popped st out ≡ (fifo_call capacity pop l).0)
      × Represents capacity (fifo_call capacity pop l).1 r
unfolding fifo_call
pop_refines capacity l q v =
    let z = queue_pop-size q ∙ v.sized in
    elim (queue_pop_lem q v.valid) [
      | inl (a, b, c, d, w) ↦
          rw (a, b, sym v.holds ∙ c) (refl, record { valid = w; holds = d; sized = z })
      | inr (val, a, b, c, w) ↦
          rw (a, b, sym v.holds ∙ c) (refl, record { valid = w; holds = refl; sized = z })
    ]

call_refines :
    (capacity : ℕ) (c : Call) (l : List ℕ) (q : Queue)
    → Represents capacity l q
    → ((call c q).0 ≡ (fifo_call capacity c l).0)
      × Represents capacity (fifo_call capacity c l).1 (call c q).1
unfolding call
call_refines capacity (push val) l q v = push_refines capacity val l q v
call_refines capacity pop l q v = pop_refines capacity l q v

-- Of a queue that represents a list, any sequence of calls of `queue_push` and `queue_pop` returns
-- what the bounded first-in first-out list returns, and it leaves a queue that represents the
-- list that is left.
pub calls_refine :
    (capacity : ℕ) (cs : List Call) (l : List ℕ) (q : Queue)
    → Represents capacity l q
    → ((calls cs q).0 ≡ (fifo_calls capacity cs l).0)
      × Represents capacity (fifo_calls capacity cs l).1 (calls cs q).1
unfolding calls fifo_calls
calls_refine capacity [] l q v = (refl, v)
calls_refine capacity (c ∷ cs) l q v =
    let (a, w) = call_refines capacity c l q v in
    let (b, u) = calls_refine capacity cs (fifo_call capacity c l).1 (call c q).1 w in
    (
      ap (◌∷◌ (call c q).0) b
          ∙ ap (λ x. x ∷ (fifo_calls capacity cs (fifo_call capacity c l).1).0) a,
      u,
    )
