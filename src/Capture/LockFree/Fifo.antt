-- ===== src/Capture/LockFree/Fifo.antt =====
-- The values that enter and leave the lock-free queue, in the interleavings of its two threads.
use native.Mathlib.Nat.{add-zero}
use mmt_probe.Base.{
  ℕ, suc, ◌+◌, ◌^◌, ◌≤◌, ◌≡◌, refl, sym, ap, ◌∙◌, List, [], ◌∷◌, ◌++◌, length, get_or,
  length-append, append_assoc, append-nil, arith, ◌≢◌, get_or-set_self, subst,
}
use mmt_probe.Capture.LockFree.{
  ring_init, push_check, push_write, push_publish, pop_check, update_tail, Producer, passed,
  written, Consumer, ready, taken, bulk, System, Step, push_begins, push_refused, push_writes,
  push_ends, pop_begins, pop_refused, pop_reads, pop_ends, bulk_begins, bulk_reads, bulk_ends,
  Reach, start, next,
}
use mmt_probe.Capture.LockFree.Inv.{
  HasRoom, HasValues, push_check-IsValid, push_check_same, push_write-IsValid, push_publish-IsValid,
  pop_check-IsValid, pop_check_same, bulk_count-HasValues, update_tail-IsValid, row, ProducerInv,
  ConsumerInv, Inv,
}
use mmt_probe.Capture.LockFree.Keep.{
  contents, contents-push_write, contents-push_publish, contents-update_tail, contents-same,
  ProducerInv-same, ConsumerInv-same, ConsumerInv-push_write,
}

-- What one step of either thread keeps: the invariant, and each value that enters or leaves.
abbrev Keeps : System → List ℕ → List ℕ → System → Type 0
Keeps s i o t = Inv t × (contents s.queue ++ i ≡ o ++ contents t.queue)

module _ (s : System) (v : Inv s) where
  push_check-Keeps :
      (p : Producer)
      → ProducerInv (push_check s.queue).1 p
      → Keeps s [] [] (record s { queue = (push_check s.queue).1; producer = p })
  push_check-Keeps p h =
      let q = s.queue in
      let (a, b, c, d, e) = push_check_same q v.valid in
      (
        record {
          valid = (push_check-IsValid q v.valid).0;
          producer_inv = h;
          consumer_inv = ConsumerInv-same q (push_check q).1 s.consumer b c d e v.consumer_inv;
        },
        append-nil (contents q) ∙ sym (contents-same q (push_check q).1 a b c d),
      )

  pop_check-Keeps :
      (c : Consumer)
      → ConsumerInv (pop_check s.queue).1 c
      → Keeps s [] [] (record s { queue = (pop_check s.queue).1; consumer = c })
  pop_check-Keeps k h =
      let q = s.queue in
      let (a, b, c, d, e) = pop_check_same q v.valid in
      (
        record {
          valid = (pop_check-IsValid q v.valid).0;
          producer_inv = ProducerInv-same q (pop_check q).1 s.producer a c d e v.producer_inv;
          consumer_inv = h;
        },
        append-nil (contents q) ∙ sym (contents-same q (pop_check q).1 a b c d),
      )

  pop_end-Keeps :
      (k : ℕ) (read : List ℕ)
      → s.queue.tail + k ≤ s.queue.size
      → HasValues s.queue k
      → read ≡ row s.queue.cells s.queue.tail k
      → Keeps s [] read
          (record s { queue = update_tail s.queue s.queue.tail k; consumer = Consumer.outside })
  pop_end-Keeps k read h l e =
      let q = s.queue in
      (
        record {
          valid = (update_tail-IsValid q v.valid k h l).0;
          producer_inv =
              unfold update_tail in
              ProducerInv-same q (update_tail q q.tail k) s.producer refl refl refl refl
                v.producer_inv;
          consumer_inv = tt;
        },
        append-nil (contents q) ∙ contents-update_tail q v.valid k h l ∙ rw e,
      )

  read-Keeps : (c : Consumer) → ConsumerInv s.queue c → Keeps s [] [] (record s { consumer = c })
  read-Keeps c h = (
    record { valid = v.valid; producer_inv = v.producer_inv; consumer_inv = h },
    append-nil (contents s.queue),
  )

  push_write-Keeps :
      (val : ℕ)
      → HasRoom s.queue
      → Keeps s [] [] (record s { queue = push_write s.queue val; producer = written val })
  unfolding push_write
  push_write-Keeps val h =
      let q = s.queue in
      (
        record {
          valid = push_write-IsValid q v.valid val;
          producer_inv = (h, get_or-set_self q.cells q.head val 0 (omega (arith, v.valid)));
          consumer_inv = ConsumerInv-push_write q v.valid val s.consumer v.consumer_inv;
        },
        append-nil (contents q) ∙ sym (contents-push_write q v.valid val),
      )

  push_end-Keeps :
      (val : ℕ)
      → ProducerInv s.queue (written val)
      → Keeps s
          (val ∷ [])
          []
          (record s { queue = push_publish s.queue; producer = Producer.outside })
  push_end-Keeps val h =
      let q = s.queue in
      (
        record {
          valid = (push_publish-IsValid q v.valid h.0).0;
          producer_inv = tt;
          consumer_inv =
              unfold push_publish in
              ConsumerInv-same q (push_publish q) s.consumer refl refl refl refl v.consumer_inv;
        },
        rw (contents-push_publish q v.valid h.0, h.1),
      )

  -- The consumer may read one value more of the row that it was promised.
  bulk_reads-ConsumerInv :
      (k : ℕ) (read : List ℕ)
      → ConsumerInv s.queue (bulk k read)
      → length read ≢ k
      → ConsumerInv s.queue
          (bulk k (read ++ get_or s.queue.cells (s.queue.tail + length read) 0 ∷ []))
  bulk_reads-ConsumerInv k read (h, fits, le, e) ne =
      let x = get_or s.queue.cells (s.queue.tail + length read) 0 in
      let n : length (read ++ x ∷ []) ≡ suc (length read) =
        length-append read (x ∷ []) ∙ omega arith in
      (h, fits, omega arith, ap (λ l. l ++ x ∷ []) e ∙ ap (row s.queue.cells s.queue.tail) (sym n))

-- One access of either thread keeps the invariant; what is in the queue, with what enters, is what
-- leaves, with what is then in it.
pub Step-Keeps : {s : System} {i o : List ℕ} {t : System} → Step s i o t → Inv s → Keeps s i o t
Step-Keeps (push_begins s val at room) v =
    push_check-Keeps s v (passed val) ((push_check-IsValid s.queue v.valid).1 room)
Step-Keeps (push_refused s at _) v =
    push_check-Keeps s v s.producer (subst (ProducerInv (push_check s.queue).1) (sym at) tt)
Step-Keeps (push_writes s val at) v =
    push_write-Keeps s v val (subst (ProducerInv s.queue) at v.producer_inv)
Step-Keeps (push_ends s val at) v =
    push_end-Keeps s v val (subst (ProducerInv s.queue) at v.producer_inv)
Step-Keeps (pop_begins s at any) v =
    pop_check-Keeps s v ready ((pop_check-IsValid s.queue v.valid).1 any)
Step-Keeps (pop_refused s at _) v =
    pop_check-Keeps s v s.consumer (subst (ConsumerInv (pop_check s.queue).1) (sym at) tt)
Step-Keeps (pop_reads s at) v =
    read-Keeps s v (taken _) (subst (ConsumerInv s.queue) at v.consumer_inv, refl)
Step-Keeps (pop_ends s val at) v =
    let (h, e) = subst (ConsumerInv s.queue) at v.consumer_inv in
    pop_end-Keeps s v 1 (val ∷ []) (omega (arith, v.valid)) h
      (rw add-zero (ap (λ x. x ∷ []) (sym e)))
Step-Keeps (bulk_begins s at any) v =
    let w = pop_check-IsValid s.queue v.valid in
    let (a, b, c) = bulk_count-HasValues (pop_check s.queue).1 w.0 (w.1 any) in
    pop_check-Keeps s v (bulk _ []) (b, c, omega arith, refl)
Step-Keeps (bulk_reads s k read at ne) v =
    read-Keeps s v (bulk k _)
      (bulk_reads-ConsumerInv s v k read (subst (ConsumerInv s.queue) at v.consumer_inv) ne)
Step-Keeps (bulk_ends s read at) v =
    let (h, fits, le, e) = subst (ConsumerInv s.queue) at v.consumer_inv in
    pop_end-Keeps s v (length read) read fits h e

module _ (memory : List ℕ) (size : ℕ) (stored : length memory ≡ size + 2) (some_size : 1 ≤ size)
    (small : size + 5 ≤ 2 ^ 32) where
  start-Inv : Inv (record {
    queue = ring_init memory size;
    producer = Producer.outside;
    consumer = Consumer.outside;
  })
  unfolding ring_init
  start-Inv = record { valid = omega arith; producer_inv = tt; consumer_inv = tt }

  -- In every run of the two threads the invariant holds, and the values that have entered are
  -- those that have left followed by those that the queue holds.
  pub Reach-Keeps :
      {ins outs : List ℕ} {s : System}
      → Reach memory size ins outs s
      → Inv s × (ins ≡ outs ++ contents s.queue)
  unfolding ring_init
  Reach-Keeps start = (start-Inv, refl)
  Reach-Keeps (next {ins} {outs} {s} i o t r st) =
      let (v, e) = Reach-Keeps r in
      let (w, k) = Step-Keeps st v in
      (
        w,
        ap (λ l. l ++ i) e
            ∙ append_assoc outs (contents s.queue) i
            ∙ ap (λ l. outs ++ l) k
            ∙ sym (append_assoc outs o (contents t.queue)),
      )
