-- ===== src/Capture/Handover.antt =====
-- An element of `src/modules/packet_capture/pcap/data_spsc_ring.h` on its way through the ring.
use mmt_probe.Base.{
  ℕ, ◌+◌, ◌≡◌, ◌≢◌, sym, ap, ◌∙◌, false, List, [], ◌∷◌, ◌++◌, some, get_or, ◌==◌, inl, inr, arith,
}
use mmt_probe.Capture.LockFree.{queue_push}
use mmt_probe.Capture.LockFree.Inv.{IsValid, count}
use mmt_probe.Capture.LockFree.Keep.{contents}
use mmt_probe.Capture.LockFree.Slots.{queue_push_lem, queue_pop_lem}
use mmt_probe.Capture.DataRing.{DataRing, get_tmp_element, data_push, data_pop}

first-eq : (x y : ℕ) (l : List ℕ) → x ∷ [] ≡ y ∷ l → x ≡ y
first-eq x y l e = cc

-- On a valid queue that is empty and has room, the element that the producer was given as its
-- temporary one is, after it is pushed, the one that the consumer's next pop returns.
pub data_pop-data_push :
    (q : DataRing)
    → IsValid q.fifo_index
    → contents q.fifo_index ≡ []
    → count q.fifo_index + 3 ≢ q.fifo_index.size
    → (data_pop (data_push q).1).1 ≡ some (get_tmp_element q)
data_pop-data_push q v e room =
    let (st, c, w) = queue_push_lem q.fifo_index q.fifo_index.head v in
    let k : (count q.fifo_index + 3 == q.fifo_index.size) ≡ false = ground arith in
    let d : contents (queue_push q.fifo_index q.fifo_index.head).1 ≡ q.fifo_index.head ∷ [] =
      c ∙ rw k (ap (λ l. l ++ q.fifo_index.head ∷ []) e) in
    elim (queue_pop_lem (queue_push q.fifo_index q.fifo_index.head).1 w) [
      | inl (a, b, n, z, u) ↦ cc
      | inr (val, a, b, n, u) ↦ rw b (
          ap (λ i. some (get_or q.elements i 0))
            (sym (first-eq q.fifo_index.head val _ (sym d ∙ n))))
    ]
