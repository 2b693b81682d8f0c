-- ===== src/Capture/Worker/Drain.antt =====
-- Which packets a worker of src/modules/packet_capture/pcap/pcap_capture.c processes in a turn.
use mmt_probe.Base.{
  ℕ, zero, suc, ◌+◌, ◌-◌, ◌≡◌, ◌≢◌, refl, ap, sym, ◌∙◌, true, false, List, [], ◌∷◌, ◌++◌, some,
  get_or, Bool-cases, inl, inr, ◌==◌, ==_iff, arith, map,
}
use mmt_probe.Capture.LockFree.{pop_check, bulk_count, update_tail}
use mmt_probe.Capture.LockFree.Inv.{
  IsValid, count, HasValues, row, pop_check-IsValid, bulk_count-HasValues, update_tail-IsValid,
}
use mmt_probe.Capture.LockFree.Keep.{window, contents, contents-update_tail}
use mmt_probe.Capture.LockFree.Slots.{pop_check-count, contents-pop_check}
use mmt_probe.Capture.DataRing.{DataRing, get_data, data_update_tail}
use mmt_probe.Capture.Worker.{
  read_packets, PacketTurn, ended, goes_on, process_bulk, process_packets,
}

-- the element with the index
abbrev pub element : DataRing → ℕ → ℕ
element q i = get_or q.elements i 0

-- The elements in the ring, the oldest first.
abbrev pub waiting : DataRing → List ℕ
waiting q = map (element q) (contents q.fifo_index)

map-append {ℓ κ} :
    {A : Type ℓ} {B : Type κ} (f : A → B) (xs ys : List A) → map f (xs ++ ys) ≡ map f xs ++ map f ys
map-append f [] ys = refl
map-append f (x ∷ xs) ys = ap (λ l. f x ∷ l) (map-append f xs ys)

read_packets-row :
    (q : DataRing) (t n : ℕ) → read_packets q t n ≡ map (element q) (row q.fifo_index.cells t n)
unfolding read_packets
read_packets-row q t zero = refl
read_packets-row q t (suc n) =
    let e : n + t ≡ t + n = omega arith in
    rw (e, read_packets-row q t n) (sym (map-append (element q) (row q.fifo_index.cells t n) _))

-- What a turn may do: nothing, on an empty ring; process the oldest packets, at least one, and leave
-- the others in the ring; or process packets up to the one that tells the worker to exit.
pub data Drains (len : ℕ → ℕ) (q : DataRing) : PacketTurn → Type 0 where
  idles :
      (r : DataRing) (now : ℕ)
      → waiting q ≡ []
      → waiting r ≡ []
      → IsValid r.fifo_index
      → Drains len q (goes_on [] r now)
  processes :
      (packets : List ℕ) (last now : ℕ) (r : DataRing)
      → waiting q ≡ (packets ++ last ∷ []) ++ waiting r
      → len last ≢ 0
      → IsValid r.fifo_index
      → Drains len q (goes_on (packets ++ last ∷ []) r now)
  exits :
      (packets others : List ℕ) (last : ℕ) (r : DataRing)
      → waiting q ≡ (packets ++ last ∷ []) ++ others
      → len last ≡ 0
      → Drains len q (ended packets r)

module _ (r : DataRing) (v : IsValid r.fifo_index) (any : HasValues r.fifo_index 1) where
  abbrev bulk : ℕ
  bulk = bulk_count r.fifo_index

  abbrev first : List ℕ
  first = read_packets r r.fifo_index.tail (bulk - 1)

  abbrev last_of : ℕ
  last_of = get_data r (bulk - 1 + r.fifo_index.tail)

  after-IsValid : IsValid (data_update_tail r r.fifo_index.tail bulk).fifo_index
  after-IsValid =
      let (a, b, c) = bulk_count-HasValues r.fifo_index v any in
      (update_tail-IsValid r.fifo_index v bulk c b).0

  -- The bulk is the first part of what waits.
  waiting-bulk :
      waiting r ≡ (first ++ last_of ∷ []) ++ waiting (data_update_tail r r.fifo_index.tail bulk)
  waiting-bulk =
      let q = r.fifo_index in
      let (a, b, c) = bulk_count-HasValues q v any in
      ap (map (element r)) (contents-update_tail q v bulk c b)
      ∙ map-append (element r) (row q.cells q.tail bulk) (contents (update_tail q q.tail bulk))
      ∙ ap (λ l. l ++ waiting (data_update_tail r q.tail bulk)) (sym whole)
    where
      one_more : suc (bulk - 1) ≡ bulk
      one_more = omega (arith, (bulk_count-HasValues r.fifo_index v any).0)

      whole :
          first ++ last_of ∷ [] ≡ map (element r) (row r.fifo_index.cells r.fifo_index.tail bulk)
      whole =
          unfold read_packets in
          read_packets-row r r.fifo_index.tail (suc (bulk - 1))
          ∙ ap (λ n. map (element r) (row r.fifo_index.cells r.fifo_index.tail n)) one_more

true-false : true ≢ false
true-false e = cc

module _ (tv_sec len : ℕ → ℕ) (now : ℕ) where
  process_bulk-Drains :
      (q r : DataRing)
      → waiting q ≡ waiting r
      → IsValid r.fifo_index
      → HasValues r.fifo_index 1
      → Drains len q (process_bulk tv_sec len now r (some (bulk_count r.fifo_index)))
  unfolding process_bulk
  process_bulk-Drains q r e v any = elim (Bool-cases (len (last_of r v any) == 0)) [
    | inl h ↦ rw h (
        exits (first r v any) _ (last_of r v any) r (e ∙ waiting-bulk r v any)
          ((==_iff (len (last_of r v any)) 0).0 h))
    | inr h ↦ rw h (
        processes (first r v any) (last_of r v any) _ _ (e ∙ waiting-bulk r v any)
          (λ z. true-false (sym ((==_iff (len (last_of r v any)) 0).1 z) ∙ h))
          (after-IsValid r v any))
  ]

  -- A turn of a worker on a valid ring, from the test of the ring to the update of its tail: on an
  -- empty ring it processes nothing; else it processes, in order, the oldest packets of the ring, at
  -- least one and of which the last is not one that tells it to exit, and exactly the others are left
  -- in it; or it processes the oldest packets up to one
  -- that tells the worker to exit, which it does not process, and leaves the loop. A ring on which
  -- the loop goes on is valid.
  pub process_packets-Drains :
      (q : DataRing) → IsValid q.fifo_index → Drains len q (process_packets tv_sec len now q)
  unfolding process_packets process_bulk
  process_packets-Drains q v =
      let w = pop_check-IsValid q.fifo_index v in
      let r : DataRing = record {
        elements = q.elements;
        fifo_index = (pop_check q.fifo_index).1;
      } in
      let e : waiting q ≡ waiting r =
        ap (map (element q)) (sym (contents-pop_check q.fifo_index v)) in
      elim (Bool-cases (count q.fifo_index == 0)) [
        | inl h ↦
            let none_left : (pop_check q.fifo_index).0 ≡ false =
              pop_check-count q.fifo_index v ∙ rw h in
            let z : count q.fifo_index ≡ 0 = ground arith in
            let nil : waiting q ≡ [] =
              ap
                (λ k.
                  map (element q) (window q.fifo_index.cells q.fifo_index.size q.fifo_index.tail k))
                z in
            rw none_left (idles r now nil (sym e ∙ nil) w.0)
        | inr h ↦
            let some_left : (pop_check q.fifo_index).0 ≡ true =
              pop_check-count q.fifo_index v ∙ rw h in
            rw some_left (process_bulk-Drains q r e w.0 (w.1 some_left))
      ]
