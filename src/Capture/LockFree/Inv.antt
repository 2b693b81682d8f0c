-- ===== src/Capture/LockFree/Inv.antt =====
-- The invariant of the lock-free queue under every interleaving of its two threads.
use native.Mathlib.Nat.{mod-eq_of_lt}
use mmt_probe.Base.{
  ℕ, suc, zero, ◌+◌, ◌-◌, ◌%◌, ◌^◌, ◌≤◌, ◌<◌, ◌≡◌, ◌∙◌, true, List, [], ◌∷◌, ◌++◌, length, get_or,
  length-set, ltb, leb, if◌then◌else◌, arith,
}
use mmt_probe.Base.Words.{add32, mod_once}
use mmt_probe.Capture.LockFree.{
  Queue, push_check, push_write, push_publish, pop_check, update_tail, bulk_count, Producer, passed,
  written, Consumer, ready, taken, bulk, System,
}

-- How far `b` stands behind `a` on a ring of size `n`.
abbrev pub dist : ℕ → ℕ → ℕ → ℕ
dist n a b = if leb a b then b - a else b + n - a

-- How many values the queue holds.
abbrev pub count : Queue → ℕ
count q = dist q.size q.tail q.head

-- The indices lie in the array, the sums do not wrap, and each thread's cached index of the other
-- is one that the other has had, and is safe to act on.
pub record IsValid (q : Queue) : Type 0 where
  pub size_ge : 3 ≤ q.size
  pub size_fits : q.size + 3 ≤ 2 ^ 32
  pub storage : length q.cells ≡ q.size
  pub head_in : q.head < q.size
  pub tail_in : q.tail < q.size
  pub cached_head_in : q.cached_head < q.size
  pub cached_tail_in : q.cached_tail < q.size
  pub head_cached : dist q.size q.tail q.cached_head ≤ count q
  pub tail_cached : count q ≤ dist q.size q.cached_tail q.head
  pub room : dist q.size q.cached_tail q.head + 3 ≤ q.size

abbrev pub HasRoom : Queue → Type 0
HasRoom q = dist q.size q.cached_tail q.head + 4 ≤ q.size

abbrev pub HasValues : Queue → ℕ → Type 0
HasValues q k = k ≤ dist q.size q.tail q.cached_head

module _ (q : Queue) (v : IsValid q) where
  -- the two sums of the code as tests, with no wrap-around
  pub third_next :
      add32 q.head 3 % q.size
      ≡ (if ltb (q.head + 3) q.size then q.head + 3 else q.head + 3 - q.size)
  third_next =
      rw (mod-eq_of_lt {n = q.head + 3} {m = 2 ^ 32} (omega arith))
        (mod_once (q.head + 3) q.size (omega arith))

  pub head_next :
      add32 q.head 1 % q.size
      ≡ (if ltb (q.head + 1) q.size then q.head + 1 else q.head + 1 - q.size)
  head_next =
      rw (mod-eq_of_lt {n = q.head + 1} {m = 2 ^ 32} (omega arith))
        (mod_once (q.head + 1) q.size (omega arith))

  pub tail_next :
      (k : ℕ)
      → q.tail + k ≤ q.size
      → add32 q.tail k % q.size ≡ (if ltb (q.tail + k) q.size then q.tail + k else 0)
  tail_next k h =
      rw (mod-eq_of_lt {n = q.tail + k} {m = 2 ^ 32} (omega arith))
        (mod_once (q.tail + k) q.size (omega arith) ∙ ground arith)

  pub push_check-IsValid :
      IsValid (push_check q).1 × ((push_check q).0 ≡ true → HasRoom (push_check q).1)
  unfolding push_check
  push_check-IsValid = ground (arith, third_next)

  -- The producer's check moves nothing.
  pub push_check_same :
      ((push_check q).1.head ≡ q.head)
      × ((push_check q).1.tail ≡ q.tail)
      × ((push_check q).1.size ≡ q.size)
      × ((push_check q).1.cells ≡ q.cells)
      × ((push_check q).1.cached_head ≡ q.cached_head)
  unfolding push_check
  push_check_same = ground arith

  pub push_write-IsValid : (val : ℕ) → IsValid (push_write q val)
  unfolding push_write
  push_write-IsValid val = ground (arith, length-set q.cells q.head val)

  pub push_publish-IsValid :
      HasRoom q → IsValid (push_publish q) × (count (push_publish q) ≡ count q + 1)
  unfolding push_publish
  push_publish-IsValid h = ground (arith, head_next)

  pub pop_check-IsValid :
      IsValid (pop_check q).1 × ((pop_check q).0 ≡ true → HasValues (pop_check q).1 1)
  unfolding pop_check
  pop_check-IsValid = ground arith

  pub pop_check_same :
      ((pop_check q).1.head ≡ q.head)
      × ((pop_check q).1.tail ≡ q.tail)
      × ((pop_check q).1.size ≡ q.size)
      × ((pop_check q).1.cells ≡ q.cells)
      × ((pop_check q).1.cached_tail ≡ q.cached_tail)
  unfolding pop_check
  pop_check_same = ground arith

  pub bulk_count-HasValues :
      HasValues q 1
      → (1 ≤ bulk_count q) × HasValues q (bulk_count q) × (q.tail + bulk_count q ≤ q.size)
  bulk_count-HasValues h = ground arith

  pub update_tail-IsValid :
      (k : ℕ)
      → q.tail + k ≤ q.size
      → HasValues q k
      → IsValid (update_tail q q.tail k) × (count (update_tail q q.tail k) + k ≡ count q)
  unfolding update_tail
  update_tail-IsValid k h l = ground (arith, tail_next k)

-- What is known where each thread stands.
abbrev pub ProducerInv : Queue → Producer → Type 0
ProducerInv q Producer.outside = Unit {0}
ProducerInv q (passed val) = HasRoom q
ProducerInv q (written val) = HasRoom q × (get_or q.cells q.head 0 ≡ val)

-- the `k` values from the tail on, in one row
abbrev pub row : List ℕ → ℕ → ℕ → List ℕ
row cells i zero = []
row cells i (suc k) = row cells i k ++ get_or cells (i + k) 0 ∷ []

abbrev pub ConsumerInv : Queue → Consumer → Type 0
ConsumerInv q Consumer.outside = Unit {0}
ConsumerInv q ready = HasValues q 1
ConsumerInv q (taken val) = HasValues q 1 × (get_or q.cells q.tail 0 ≡ val)
ConsumerInv q (bulk k read) =
    HasValues q k
    × (q.tail + k ≤ q.size)
    × (length read ≤ k)
    × (read ≡ row q.cells q.tail (length read))

pub record Inv (s : System) : Type 0 where
  pub valid : IsValid s.queue
  pub producer_inv : ProducerInv s.queue s.producer
  pub consumer_inv : ConsumerInv s.queue s.consumer
