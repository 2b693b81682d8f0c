-- ===== src/Capture/LockFree.antt =====
-- The queue between the reader thread and one worker thread of the pcap capture:
-- src/modules/packet_capture/pcap/lock_free_spsc_ring.h (queue_init of the .c file beside it), and
-- the calls of data_spsc_ring.h on it. Each operation is cut at its accesses to the memory that
-- the two threads share, so that `Step` may interleave them; memory is sequentially consistent, as
-- the atomic built-ins of the source make it.
pub mod Inv
pub mod Keep
pub mod Fifo
pub mod Slots
pub mod Refine
use mmt_probe.Base.{
  ℕ, ◌+◌, ◌-◌, ◌%◌, ◌≡◌, ◌≢◌, Bool, true, false, List, [], ◌∷◌, ◌++◌, Option, none, some, length,
  get_or, set, ltb, ◌==◌, if◌then◌else◌,
}
use mmt_probe.Base.Words.{add32}

-- `lock_free_spsc_ring_t`; `cells` is `_data`.
pub record Queue : Type 0 where
  pub head : ℕ
  pub tail : ℕ
  pub cached_head : ℕ
  pub cached_tail : ℕ
  pub size : ℕ
  pub cells : List ℕ

pub data Status : Type 0 where
  success full empty : Status

-- `memory` is what `malloc` hands over: `size` cells, with anything in them.
unfoldable pub queue_init : List ℕ → ℕ → Queue
queue_init memory size = record {
  head = 0;
  tail = 0;
  cached_head = 0;
  cached_tail = 0;
  size = size;
  cells = memory;
}

-- `data_spsc_ring_init` makes the queue two slots larger than it is asked for.
unfoldable pub ring_init : List ℕ → ℕ → Queue
unfolding queue_init
ring_init memory size = queue_init memory (add32 size 2)

-- `( h + 3 ) % ( q->_size ) == q->_cached_tail`
abbrev pub is_full : Queue → Bool
is_full q = add32 q.head 3 % q.size == q.cached_tail

-- The test of `queue_push`: is there room? The tail is loaded if the cached one says that there
-- is none.
unfoldable pub push_check : Queue → Bool × Queue
push_check q =
    let q' = record q { cached_tail = q.tail } in
    if is_full q then (if is_full q' then (false, q') else (true, q')) else (true, q)

pub push_write : Queue → ℕ → Queue
push_write q val = record q { cells = set q.cells q.head val }

pub push_publish : Queue → Queue
push_publish q = record q { head = add32 q.head 1 % q.size }

pub queue_push : Queue → ℕ → Status × Queue
queue_push q val =
    let (room, q') = push_check q in
    if room then (success, push_publish (push_write q' val)) else (full, q')

-- `data_spsc_ring_push_tmp_element`: the value that goes through the queue is the slot's index.
abbrev pub push_tmp_element : Queue → Status × Queue
push_tmp_element q = queue_push q q.head

-- The test of `queue_pop` and `queue_pop_bulk`: is there a value?
pub pop_check : Queue → Bool × Queue
pop_check q =
    let q' = record q { cached_head = q.head } in
    if q.cached_head == q.tail
    then (if q'.cached_head == q'.tail then (false, q') else (true, q'))
    else (true, q)

-- `q->_data[ t ]`
abbrev pub pop_read : Queue → ℕ
pop_read q = get_or q.cells q.tail 0

-- `queue_update_tail`
pub update_tail : Queue → ℕ → ℕ → Queue
update_tail q tail size = record q { tail = add32 tail size % q.size }

-- The last argument of the result is `*val`.
pub queue_pop : Queue → Status × Option ℕ × Queue
queue_pop q =
    let (any, q') = pop_check q in
    if any then (success, some (pop_read q'), update_tail q' q'.tail 1) else (empty, none, q')

-- How many values stand in one row behind the tail.
abbrev pub bulk_count : Queue → ℕ
bulk_count q = if ltb q.tail q.cached_head then q.cached_head - q.tail else q.size - q.tail

-- `none` is QUEUE_EMPTY; otherwise the count that is returned (`*val` is the tail).
abbrev pub queue_pop_bulk : Queue → Option ℕ × Queue
queue_pop_bulk q =
    let (any, q') = pop_check q in if any then (some (bulk_count q'), q') else (none, q')

-- Where the producer stands in `queue_push`.
pub data Producer : Type 0 where
  outside : Producer
  passed : ℕ → Producer
  written : ℕ → Producer

-- Where the consumer stands in `queue_pop`, or in its loop over the values of `queue_pop_bulk`:
-- how many it was promised, and those it has read.
pub data Consumer : Type 0 where
  outside : Consumer
  ready : Consumer
  taken : ℕ → Consumer
  bulk : ℕ → List ℕ → Consumer

pub record System : Type 0 where
  pub queue : Queue
  pub producer : Producer
  pub consumer : Consumer

-- One access of either thread. The lists are the values that enter and leave the queue with it.
pub data Step : System → List ℕ → List ℕ → System → Type 0 where
  push_begins :
      (s : System) (val : ℕ)
      → s.producer ≡ Producer.outside
      → (push_check s.queue).0 ≡ true
      → Step s [] [] (record s { queue = (push_check s.queue).1; producer = passed val })
  push_refused :
      (s : System)
      → s.producer ≡ Producer.outside
      → (push_check s.queue).0 ≡ false
      → Step s [] [] (record s { queue = (push_check s.queue).1 })
  push_writes :
      (s : System) (val : ℕ)
      → s.producer ≡ passed val
      → Step s [] [] (record s { queue = push_write s.queue val; producer = written val })
  push_ends :
      (s : System) (val : ℕ)
      → s.producer ≡ written val
      → Step s
          (val ∷ [])
          []
          (record s { queue = push_publish s.queue; producer = Producer.outside })
  pop_begins :
      (s : System)
      → s.consumer ≡ Consumer.outside
      → (pop_check s.queue).0 ≡ true
      → Step s [] [] (record s { queue = (pop_check s.queue).1; consumer = ready })
  pop_refused :
      (s : System)
      → s.consumer ≡ Consumer.outside
      → (pop_check s.queue).0 ≡ false
      → Step s [] [] (record s { queue = (pop_check s.queue).1 })
  pop_reads :
      (s : System)
      → s.consumer ≡ ready
      → Step s [] [] (record s { consumer = taken (pop_read s.queue) })
  pop_ends :
      (s : System) (val : ℕ)
      → s.consumer ≡ taken val
      → Step s []
          (val ∷ [])
          (record s { queue = update_tail s.queue s.queue.tail 1; consumer = Consumer.outside })
  bulk_begins :
      (s : System)
      → s.consumer ≡ Consumer.outside
      → (pop_check s.queue).0 ≡ true
      → Step s [] [] (record s {
        queue = (pop_check s.queue).1;
        consumer = bulk (bulk_count (pop_check s.queue).1) [];
      })
  bulk_reads :
      (s : System) (count : ℕ) (read : List ℕ)
      → s.consumer ≡ bulk count read
      → length read ≢ count
      → Step s [] [] (record s {
        consumer = bulk count (read ++ get_or s.queue.cells (s.queue.tail + length read) 0 ∷ []);
      })
  bulk_ends :
      (s : System) (read : List ℕ)
      → s.consumer ≡ bulk (length read) read
      → Step s [] read (record s {
        queue = update_tail s.queue s.queue.tail (length read);
        consumer = Consumer.outside;
      })

-- A run of the two threads from the queue as `ring_init` leaves it: the values that have entered,
-- those that have left, and the state reached.
pub data Reach (memory : List ℕ) (size : ℕ) : List ℕ → List ℕ → System → Type 0 where
  start : Reach memory size [] [] (record {
    queue = ring_init memory size;
    producer = Producer.outside;
    consumer = Consumer.outside;
  })
  next :
      {ins outs : List ℕ} {s : System} (i o : List ℕ) (t : System)
      → Reach memory size ins outs s
      → Step s i o t
      → Reach memory size (ins ++ i) (outs ++ o) t
