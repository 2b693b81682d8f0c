-- ===== src/Capture/Reader/Whole.antt =====
-- No packet of the pcap capture is lost without being counted: the reader and the workers of
-- src/modules/packet_capture/pcap/pcap_capture.c together.
use mmt_probe.Base.{
  ℕ, ◌+◌, ◌%◌, ◌^◌, ◌<◌, ◌≡◌, refl, ap, subst, Bool, List, [], ◌∷◌, ◌++◌, some, length,
  length-append, length-set, Bool-cases, inl, inr, map, get_or, set, if◌then◌else◌, arith,
}
use mmt_probe.Base.Words.{add64}
use mmt_probe.Capture.LockFree.Inv.{IsValid}
use mmt_probe.Capture.LockFree.Keep.{contents}
use mmt_probe.Capture.DataRing.{DataRing}
use mmt_probe.Capture.Dispatch.{Worker, Outcome, got_a_packet_smp, get_packet_hash_number}
use mmt_probe.Capture.Dispatch.Total.{
  total, AllValid, Attempt, is_in, is_dropped, is_waiting, got_a_packet_smp-Attempt,
  length-got_a_packet_smp, get_or-AllValid, set-AllValid, total-set,
}
use mmt_probe.Capture.Timer.{Periods, not_begun}
use mmt_probe.Capture.Worker.{goes_on, process_packets}
use mmt_probe.Capture.Worker.Drain.{
  element, Drains, idles, processes, waiting, process_packets-Drains,
}
use mmt_probe.Capture.Reader.{Caught, Reader, returns, take_packet, end_of_call, got_a_packet}

-- the reader with its workers, and the number of packets that the workers have processed
pub record Capture : Type 0 where
  pub reader : Reader
  pub processed : ℕ

-- A call of the reader, with a packet or without, or a turn of a worker that has processed packets.
pub data Step (periods : Periods) (offline : Bool) (absent : Worker) (c : Capture)
    : Capture → Type 0 where
  catches :
      (time h : ℕ) (p : Caught)
      → get_packet_hash_number p.data_of ≡ some h
      → Step periods offline absent c (record {
        reader = (got_a_packet periods offline time (length c.reader.smp) absent p c.reader).2;
        processed = c.processed;
      })
  times_out :
      (time : ℕ)
      → Step periods offline absent c (record {
        reader = (end_of_call periods offline time c.reader).1;
        processed = c.processed;
      })
  works :
      (i now later : ℕ) (tv_sec len : ℕ → ℕ) (packets : List ℕ) (fifo : DataRing)
      → i < length c.reader.smp
      → process_packets tv_sec len now (get_or c.reader.smp i absent).fifo
        ≡ goes_on packets fifo later
      → Step periods offline absent c (record {
        reader = record c.reader {
          smp =
              set c.reader.smp i
                (record { fifo = fifo; pkt_dropped = (get_or c.reader.smp i absent).pkt_dropped });
        };
        processed = c.processed + length packets;
      })

pub data Reach (periods : Periods) (offline : Bool) (absent : Worker) : Capture → Type 0 where
  starts_idle :
      (smp : List Worker)
      → 0 < length smp
      → AllValid smp
      → total smp ≡ 0
      → Reach periods offline absent (record {
        reader = record {
          smp = smp;
          bytes_receive = 0;
          packets_receive = 0;
          now = 0;
          milestones = not_begun;
        };
        processed = 0;
      })
  step :
      (c d : Capture)
      → Reach periods offline absent c
      → Step periods offline absent c d
      → Reach periods offline absent d

pub record IsAccounted (c : Capture) : Type 0 where
  pub some_worker : 0 < length c.reader.smp
  pub valid : AllValid c.reader.smp
  pub sums : c.reader.packets_receive % 2 ^ 64 ≡ (c.processed + total c.reader.smp) % 2 ^ 64

-- what the end of a call leaves
end_of_call_same :
    (periods : Periods) (offline : Bool) (time : ℕ) (r : Reader)
    → ((end_of_call periods offline time r).1.smp ≡ r.smp)
      × ((end_of_call periods offline time r).1.packets_receive ≡ r.packets_receive)
unfolding end_of_call
end_of_call_same periods offline time r = (refl, refl)

-- a call with a packet: the workers are those of the attempt, and the packet counts if it returns
got_a_packet_smp_of :
    (periods : Periods) (offline : Bool) (time n : ℕ) (absent : Worker) (p : Caught) (r : Reader)
    → let tried = got_a_packet_smp offline n r.smp absent p.data_of in
      let after = (got_a_packet periods offline time n absent p r).2 in
      (after.smp ≡ tried.1)
      × (after.packets_receive
          ≡ (if returns tried.0 then add64 r.packets_receive 1 else r.packets_receive))
unfolding got_a_packet take_packet end_of_call
got_a_packet_smp_of periods offline time n absent p r =
    elim (Bool-cases (returns (got_a_packet_smp offline n r.smp absent p.data_of).0)) [
      | inl e ↦ rw e (refl, refl)
      | inr e ↦ rw e (refl, refl)
    ]

counted-Attempt :
    (offline : Bool) (o : Outcome) (t n receive processed : ℕ)
    → Attempt offline t o n
    → receive % 2 ^ 64 ≡ (processed + t) % 2 ^ 64
    → (if returns o then add64 receive 1 else receive) % 2 ^ 64 ≡ (processed + n) % 2 ^ 64
counted-Attempt offline _ t _ receive processed is_in e = omega arith
counted-Attempt offline _ t _ receive processed (is_dropped h) e = omega arith
counted-Attempt offline _ t _ receive processed (is_waiting h) e = omega arith

-- a turn of a worker that goes on has processed what is not in its ring any more
length-map {ℓ κ} : {A : Type ℓ} {B : Type κ} (f : A → B) (l : List A) → length (map f l) ≡ length l
length-map f [] = refl
length-map f (x ∷ l) = omega (arith, length-map f l)

drained :
    (len : ℕ → ℕ) (q r : DataRing) (packets : List ℕ) (later : ℕ)
    → Drains len q (goes_on packets r later)
    → (length (waiting q) ≡ length packets + length (waiting r)) × IsValid r.fifo_index
drained len q r packets later (idles _ _ e g v) = (omega (arith, ap length e, ap length g), v)
drained len q r packets later (processes first last _ _ e goes_on_last v) =
    (omega (arith, ap length e, length-append (first ++ last ∷ []) (waiting r)), v)

catches-IsAccounted :
    (periods : Periods) (offline : Bool) (absent : Worker) (c : Capture) (time h : ℕ) (p : Caught)
    → get_packet_hash_number p.data_of ≡ some h
    → IsAccounted c
    → IsAccounted (record {
      reader = (got_a_packet periods offline time (length c.reader.smp) absent p c.reader).2;
      processed = c.processed;
    })
catches-IsAccounted periods offline absent c time h p e v =
    let n = length c.reader.smp in
    let (smp_of, receive_of) = got_a_packet_smp_of periods offline time n absent p c.reader in
    let tried = got_a_packet_smp offline n c.reader.smp absent p.data_of in
    let (attempt, valid) =
      got_a_packet_smp-Attempt offline c.reader.smp absent p.data_of h e v.some_worker v.valid in
    let counts =
      counted-Attempt offline tried.0 (total c.reader.smp) (total tried.1) c.reader.packets_receive
        c.processed attempt v.sums in
    record {
      some_worker =
          rw (smp_of, length-got_a_packet_smp offline c.reader.smp absent p.data_of h e)
            v.some_worker;
      valid = rw smp_of valid;
      sums = rw (smp_of, receive_of) counts;
    }

works-IsAccounted :
    (absent : Worker) (c : Capture) (i now later : ℕ) (tv_sec len : ℕ → ℕ) (packets : List ℕ)
    (fifo : DataRing)
    → i < length c.reader.smp
    → process_packets tv_sec len now (get_or c.reader.smp i absent).fifo
      ≡ goes_on packets fifo later
    → IsAccounted c
    → IsAccounted (record {
      reader = record c.reader {
        smp =
            set c.reader.smp i
              (record { fifo = fifo; pkt_dropped = (get_or c.reader.smp i absent).pkt_dropped });
      };
      processed = c.processed + length packets;
    })
works-IsAccounted absent c i now later tv_sec len packets fifo inside e v =
    let w = get_or c.reader.smp i absent in
    let w' : Worker = record { fifo = fifo; pkt_dropped = w.pkt_dropped } in
    let drains =
      process_packets-Drains tv_sec len now w.fifo
        (get_or-AllValid c.reader.smp i absent inside v.valid) in
    let (fewer, valid) =
      drained len w.fifo fifo packets later (subst (Drains len w.fifo) e drains) in
    record {
      some_worker = rw (length-set c.reader.smp i w') v.some_worker;
      valid = set-AllValid c.reader.smp i w' valid v.valid;
      sums = omega (
        arith,
        v.sums,
        fewer,
        total-set c.reader.smp i w' absent inside,
        length-map (element w.fifo) (contents w.fifo.fifo_index),
        length-map (element fifo) (contents fifo.fifo_index),
      );
    }

Step-IsAccounted :
    (periods : Periods) (offline : Bool) (absent : Worker) (c d : Capture)
    → Step periods offline absent c d
    → IsAccounted c
    → IsAccounted d
Step-IsAccounted periods offline absent c _ (catches time h p e) v =
    catches-IsAccounted periods offline absent c time h p e v
Step-IsAccounted periods offline absent c _ (times_out time) v =
    let (a, b) = end_of_call_same periods offline time c.reader in
    record { some_worker = rw a v.some_worker; valid = rw a v.valid; sums = rw (a, b) v.sums }
Step-IsAccounted periods offline absent c _ (works i now later tv_sec len packets fifo inside e) v =
    works-IsAccounted absent c i now later tv_sec len packets fifo inside e v

-- However the calls of the reader and the turns of the workers follow each other, as long as no packet
-- is read behind its end and no worker is told to exit, from valid rings without packets on: each
-- packet that the reader has counted as received is processed, waits in the ring of a worker or is
-- counted as dropped, and nothing else is, modulo 2^64; and the rings are valid.
pub Reach-IsAccounted :
    (periods : Periods) (offline : Bool) (absent : Worker) (c : Capture)
    → Reach periods offline absent c
    → IsAccounted c
Reach-IsAccounted periods offline absent _ (starts_idle smp some_worker valid nothing) = record {
  some_worker = some_worker;
  valid = valid;
  sums = omega arith;
}
Reach-IsAccounted periods offline absent d (step c _ r s) =
    Step-IsAccounted periods offline absent c d s (Reach-IsAccounted periods offline absent c r)
