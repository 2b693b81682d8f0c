-- ===== src/Capture/DataRing.antt =====
-- `src/modules/packet_capture/pcap/data_spsc_ring.h` and .c: a ring of elements that are allocated
-- once, over the lock-free queue of their indices. An element is a number, its pointer. The calls
-- of `malloc` succeed.
use mmt_probe.Base.{ℕ, List, Option, none, some, get_or, ltb, ◌||◌, ◌==◌, if◌then◌else◌}
use mmt_probe.Capture.LockFree.{
  Queue, Status, ring_init, push_tmp_element, queue_pop, queue_pop_bulk, update_tail,
}

-- `data_spsc_ring_t`: `_data` and `_fifo_index`
pub record DataRing : Type 0 where
  pub elements : List ℕ
  pub fifo_index : Queue

-- `data_spsc_ring_init`: the code that it returns, and the ring. `cells` and `elements` are what
-- `malloc` hands over.
abbrev pub data_spsc_ring_init : List ℕ → List ℕ → ℕ → ℕ → ℕ × Option DataRing
data_spsc_ring_init cells elements size element_size =
    if ltb size 1 || element_size == 0
    then (1, none)
    else (0, some (record { elements = elements; fifo_index = ring_init cells size }))

abbrev pub get_tmp_element : DataRing → ℕ
get_tmp_element q = get_or q.elements q.fifo_index.head 0

abbrev pub data_push : DataRing → Status × DataRing
data_push q =
    let (status, index) = push_tmp_element q.fifo_index in
    (status, record { elements = q.elements; fifo_index = index })

-- the element at the index that was popped
abbrev pub element_at : List ℕ → Option ℕ → Option ℕ
element_at elements none = none
element_at elements (some tail) = some (get_or elements tail 0)

-- `data_spsc_ring_pop`; the element is `none` where the queue is empty.
abbrev pub data_pop : DataRing → Status × Option ℕ × DataRing
data_pop q =
    let (status, tail, index) = queue_pop q.fifo_index in
    (status, element_at q.elements tail, record { elements = q.elements; fifo_index = index })

abbrev pub data_pop_bulk : DataRing → Option ℕ × DataRing
data_pop_bulk q =
    let (count, index) = queue_pop_bulk q.fifo_index in
    (count, record { elements = q.elements; fifo_index = index })

-- `data_spsc_ring_get_data`
abbrev pub get_data : DataRing → ℕ → ℕ
get_data q index = get_or q.elements (get_or q.fifo_index.cells index 0) 0

abbrev pub data_update_tail : DataRing → ℕ → ℕ → DataRing
data_update_tail q tail size = record {
  elements = q.elements;
  fifo_index = update_tail q.fifo_index tail size;
}
