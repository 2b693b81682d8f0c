-- ===== src/Capture/Dispatch/Total.antt =====
-- No packet is lost without being counted, in the reader of several threads of
-- src/modules/packet_capture/pcap/pcap_capture.c.
use native.Mathlib.Nat.{mod-lt}
use mmt_probe.Base.{
  ℕ, zero, suc, ◌+◌, ◌%◌, ◌<◌, ◌≡◌, subst, refl, ap, ◌∙◌, Bool, true, false, List, [], ◌∷◌, ◌++◌,
  some, length, length-append, length-set, get_or, set, ◌==◌, Bool-cases, inl, inr, arith,
}
use mmt_probe.Base.Bytes.{Bytes}
use mmt_probe.Capture.LockFree.{queue_push, full}
use mmt_probe.Capture.LockFree.Inv.{count, IsValid}
use mmt_probe.Capture.LockFree.Keep.{contents}
use mmt_probe.Capture.LockFree.Slots.{queue_push_lem}
use mmt_probe.Capture.DataRing.{DataRing}
use mmt_probe.Capture.Dispatch.{
  Worker, Outcome, pushed, dropped, waits, try_push, is_pushed, push_to, dispatch, got_a_packet_smp,
  get_packet_hash_number,
}

-- The packets that wait in the ring of a worker, and those that it has dropped.
abbrev pub accounted : Worker → ℕ
accounted w = length (contents w.fifo.fifo_index) + w.pkt_dropped

abbrev pub total : List Worker → ℕ
total [] = 0
total (w ∷ smp) = accounted w + total smp

abbrev pub AllValid : List Worker → Type 0
AllValid [] = Unit {0}
AllValid (w ∷ smp) = IsValid w.fifo.fifo_index × AllValid smp

pub get_or-AllValid :
    (smp : List Worker) (i : ℕ) (absent : Worker)
    → i < length smp
    → AllValid smp
    → IsValid (get_or smp i absent).fifo.fifo_index
get_or-AllValid [] i absent h v = absurd (omega arith)
get_or-AllValid (w ∷ smp) zero absent h (v, vs) = v
get_or-AllValid (w ∷ smp) (suc i) absent h (v, vs) = get_or-AllValid smp i absent (omega arith) vs

pub set-AllValid :
    (smp : List Worker) (i : ℕ) (w : Worker)
    → IsValid w.fifo.fifo_index
    → AllValid smp
    → AllValid (set smp i w)
set-AllValid [] i w u v = tt
set-AllValid (x ∷ smp) zero w u (v, vs) = (u, vs)
set-AllValid (x ∷ smp) (suc i) w u (v, vs) = (v, set-AllValid smp i w u vs)

pub total-set :
    (smp : List Worker) (i : ℕ) (w absent : Worker)
    → i < length smp
    → total (set smp i w) + accounted (get_or smp i absent) ≡ total smp + accounted w
total-set [] i w absent h = absurd (omega arith)
total-set (x ∷ smp) zero w absent h = omega arith
total-set (x ∷ smp) (suc i) w absent h = omega (arith, total-set smp i w absent (omega arith))

-- An attempt accounts for the packet, unless the reader waits with the rings as they were.
pub data Attempt (offline : Bool) (before : ℕ) : Outcome → ℕ → Type 0 where
  is_in : Attempt offline before pushed (before + 1)
  is_dropped : offline ≡ false → Attempt offline before dropped (before + 1)
  is_waiting : offline ≡ true → Attempt offline before waits before

is_pushed-Attempt :
    (offline : Bool) (fifo : DataRing) (n k : ℕ)
    → length (contents fifo.fifo_index) ≡ n
    → let (outcome, r) = is_pushed offline full fifo k in
      Attempt offline (n + k) outcome (accounted r)
is_pushed-Attempt true fifo n k e = rw e (is_waiting refl)
is_pushed-Attempt false fifo n k e =
    subst (Attempt false (n + k) dropped) (omega (arith, e)) (is_dropped refl)

try_push-Attempt :
    (offline : Bool) (w : Worker)
    → IsValid w.fifo.fifo_index
    → let (outcome, r) = try_push offline w in
      IsValid r.fifo.fifo_index × Attempt offline (accounted w) outcome (accounted r)
unfolding try_push
try_push-Attempt offline w v =
    let q = w.fifo.fifo_index in
    let (st, c, u) = queue_push_lem q q.head v in
    let ring : DataRing = record {
      elements = w.fifo.elements;
      fifo_index = (queue_push q q.head).1;
    } in
    elim (Bool-cases (count q + 3 == q.size)) [
      | inl e ↦
          let g : contents ring.fifo_index ≡ contents q = c ∙ rw e refl in
          rw (st, e)
            (
              fifo_valid offline ring w.pkt_dropped u,
              is_pushed-Attempt offline ring (length (contents q)) w.pkt_dropped (ap length g),
            )
      | inr e ↦
          let g : contents ring.fifo_index ≡ contents q ++ q.head ∷ [] = c ∙ rw e refl in
          rw (st, e)
            (
              u,
              subst (Attempt offline (accounted w) pushed)
                  (omega (arith, ap length g, length-append (contents q) (q.head ∷ []))) is_in,
            )
    ]
  where
    fifo_valid :
        (offline : Bool) (fifo : DataRing) (k : ℕ)
        → IsValid fifo.fifo_index
        → IsValid (is_pushed offline full fifo k).1.fifo.fifo_index
    fifo_valid true fifo k u = u
    fifo_valid false fifo k u = u

total-Attempt :
    (offline : Bool) (t a b n : ℕ) (o : Outcome)
    → n + a ≡ t + b
    → Attempt offline a o b
    → Attempt offline t o n
total-Attempt offline t a b n o e is_in = subst (Attempt offline t pushed) (omega arith) is_in
total-Attempt offline t a b n o e (is_dropped h) =
    subst (Attempt offline t dropped) (omega arith) (is_dropped h)
total-Attempt offline t a b n o e (is_waiting h) =
    subst (Attempt offline t waits) (omega arith) (is_waiting h)

-- Whatever the packet, if it is not read behind its end, the reader either pushes it to the ring of a
-- worker or, online, counts it as dropped, and then the workers' rings and counters account for one
-- packet more; or, offline, it waits with all as it was. The rings stay valid.
pub got_a_packet_smp-Attempt :
    (offline : Bool) (smp : List Worker) (absent : Worker) (packet : Bytes) (h : ℕ)
    → get_packet_hash_number packet ≡ some h
    → 0 < length smp
    → AllValid smp
    → let (outcome, after) = got_a_packet_smp offline (length smp) smp absent packet in
      Attempt offline (total smp) outcome (total after) × AllValid after
unfolding got_a_packet_smp dispatch push_to
got_a_packet_smp-Attempt offline smp absent packet h e some_worker v =
    let i = h % length smp in
    let inside : i < length smp = mod-lt h some_worker in
    let w = get_or smp i absent in
    let (u, a) = try_push-Attempt offline w (get_or-AllValid smp i absent inside v) in
    let r = (try_push offline w).1 in
    rw e (
      total-Attempt offline (total smp) (accounted w) (accounted r) (total (set smp i r))
          (try_push offline w).0 (total-set smp i r absent inside) a,
      set-AllValid smp i r u v,
    )

pub length-got_a_packet_smp :
    (offline : Bool) (smp : List Worker) (absent : Worker) (packet : Bytes) (h : ℕ)
    → get_packet_hash_number packet ≡ some h
    → length (got_a_packet_smp offline (length smp) smp absent packet).1 ≡ length smp
unfolding got_a_packet_smp dispatch push_to
length-got_a_packet_smp offline smp absent packet h e =
    let i = h % length smp in rw e (length-set smp i (try_push offline (get_or smp i absent)).1)
