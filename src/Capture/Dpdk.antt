-- ===== src/Capture/Dpdk.antt =====
-- `src/modules/packet_capture/dpdk/spsc_ring.h`: a ring of pointers between one producer and one
-- consumer. A pointer is a number, and each call is one step. The two `for` loops are recursions,
-- on the values and on their number.
use mmt_probe.Base.{
  ℕ, zero, suc, ◌+◌, ◌-◌, ◌≡◌, ◌⊎◌, inl, inr, refl, Bool-cases, List, [], ◌∷◌, length, get_or, set,
  ltb, ◌==◌, if◌then◌else◌,
}

-- `spsc_ring_t`
pub record SpscRing : Type 0 where
  pub head : ℕ
  pub cache_free : ℕ
  pub tail : ℕ
  pub cache_count : ℕ
  pub size : ℕ
  pub cells : List ℕ

-- `memory` is what `malloc` hands over, in two calls that succeed.
abbrev pub ring_create : List ℕ → ℕ → SpscRing
ring_create memory size = record {
  head = 0;
  cache_free = size;
  tail = 0;
  cache_count = 0;
  size = size;
  cells = memory;
}

-- `h += 1; if( h == q->_size ) h = 0;`
unfoldable pub advance_index : ℕ → ℕ → ℕ
advance_index size h = if h + 1 == size then 0 else h + 1

-- "not full": the cells and the index behind the values
unfoldable pub write_cells : ℕ → List ℕ → ℕ → List ℕ → List ℕ × ℕ
write_cells size cells h [] = (cells, h)
write_cells size cells h (v ∷ l) = write_cells size (set cells h v) (advance_index size h) l

-- the free cells by the tail that is read
unfoldable pub refresh_free : SpscRing → SpscRing
refresh_free q = record q {
  cache_free =
      if ltb q.tail q.head
      then q.tail + q.size - q.head
      else if q.tail == q.head
      then q.size
      else q.tail - q.head;
}

unfoldable pub enqueue_checked : SpscRing → List ℕ → ℕ × SpscRing
enqueue_checked q l =
    let (cells, h) = write_cells q.size q.cells q.head l in
    if ltb q.cache_free (length l)
    then (0, q)
    else (length l, record q { cells = cells; head = h; cache_free = q.cache_free - length l })

-- `ring_enqueue_bulk`: what it returns, and the ring
unfoldable pub ring_enqueue_bulk : SpscRing → List ℕ → ℕ × SpscRing
ring_enqueue_bulk q l =
    enqueue_checked (if ltb q.cache_free (length l) then refresh_free q else q) l

-- the values read, and the index behind them
unfoldable pub read_cells : ℕ → List ℕ → ℕ → ℕ → List ℕ × ℕ
read_cells size cells t zero = ([], t)
read_cells size cells t (suc n) =
    let (l, t') = read_cells size cells (advance_index size t) n in (get_or cells t 0 ∷ l, t')

-- the values by the head that is read
unfoldable pub refresh_count : SpscRing → SpscRing
refresh_count q = record q {
  cache_count = if ltb q.head q.tail then q.head + q.size - q.tail else q.head - q.tail;
}

unfoldable pub dequeue_checked : SpscRing → ℕ → List ℕ × SpscRing
dequeue_checked q len =
    let n = if ltb q.cache_count len then q.cache_count else len in
    let (l, t) = read_cells q.size q.cells q.tail n in
    if q.cache_count == 0
    then ([], q)
    else (l, record q { tail = t; cache_count = q.cache_count - n })

-- `ring_dequeue_burst`: the values, whose number it returns, and the ring
unfoldable pub ring_dequeue_burst : SpscRing → ℕ → List ℕ × SpscRing
ring_dequeue_burst q len = dequeue_checked (if q.cache_count == 0 then refresh_count q else q) len

-- `ring_enqueue_bulk` takes all of the values or none.
pub ring_enqueue_bulk_lem :
    (q : SpscRing) (l : List ℕ)
    → ((ring_enqueue_bulk q l).0 ≡ 0) ⊎ ((ring_enqueue_bulk q l).0 ≡ length l)
unfolding ring_enqueue_bulk enqueue_checked
ring_enqueue_bulk_lem q l =
    let r = if ltb q.cache_free (length l) then refresh_free q else q in
    elim (Bool-cases (ltb r.cache_free (length l))) [
      | inl e ↦ rw e (inl refl)
      | inr e ↦ rw e (inr refl)
    ]
