-- ===== src/Capture/LockFree/Keep.antt =====
-- What one access to the lock-free queue does to the values that it holds, and to what the other
-- thread knows.
use native.Mathlib.Nat.{mod-eq_of_lt, mod-add-mod, add-zero, add_assoc}
use mmt_probe.Base.{
  ℕ, suc, zero, ◌+◌, ◌%◌, ◌^◌, ◌≤◌, ◌<◌, ◌≡◌, ◌≢◌, ◌⊎◌, refl, sym, ap, ◌∙◌, List, [], ◌∷◌, ◌++◌,
  length, get_or, set, get_or-set_ne, append_assoc, append-nil, arith,
}
use mmt_probe.Base.Words.{add32, mod_once}
use mmt_probe.Capture.LockFree.{
  Queue, push_write, push_publish, update_tail, Producer, passed, written, Consumer, ready, taken,
  bulk,
}
use mmt_probe.Capture.LockFree.Inv.{
  count, IsValid, HasRoom, HasValues, push_publish-IsValid, update_tail-IsValid, row, ProducerInv,
  ConsumerInv,
}

module _ (cells : List ℕ) (n : ℕ) where
  -- the `d` values from index `t` on, going round at `n`
  abbrev pub window : ℕ → ℕ → List ℕ
  window t zero = []
  window t (suc d) = window t d ++ get_or cells ((t + d) % n) 0 ∷ []

  window-append : (t k d : ℕ) → window t (k + d) ≡ window t k ++ window ((t + k) % n) d
  window-append t k zero = rw add-zero (sym (append-nil (window t k)))
  window-append t k (suc d) =
      let e : k + suc d ≡ suc (k + d) = omega arith in
      rw e (
        rw (window-append t k d) (
          append_assoc (window t k) _ _
          ∙ ap (λ i. window t k ++ (window ((t + k) % n) d ++ get_or cells i 0 ∷ [])) shift))
    where
      shift : (t + (k + d)) % n ≡ ((t + k) % n + d) % n
      shift = rw mod-add-mod (ap (λ i. i % n) (sym (add_assoc t k d)))

  row-window : (t k : ℕ) → t + k ≤ n → row cells t k ≡ window t k
  row-window t zero h = refl
  row-window t (suc k) h =
      rw (row-window t k (omega arith), mod-eq_of_lt {n = t + k} {m = n} (omega arith))

window-set :
    (cells : List ℕ) (n t d h v : ℕ)
    → ((j : ℕ) → j < d → h ≢ (t + j) % n)
    → window (set cells h v) n t d ≡ window cells n t d
window-set cells n t zero h v ne = refl
window-set cells n t (suc d) h v ne = rw (
  window-set cells n t d h v (λ j l. ne j (omega arith)),
  get_or-set_ne cells h ((t + d) % n) v 0 (ne d (omega arith)),
)

-- What the queue holds, the oldest value first.
abbrev pub contents : Queue → List ℕ
contents q = window q.cells q.size q.tail (count q)

module _ (q : Queue) (v : IsValid q) where
  tail_plus : (j : ℕ) → j < count q → q.head ≢ (q.tail + j) % q.size
  tail_plus j h = ground (arith, mod_once (q.tail + j) q.size (omega arith))

  head-eq : q.head ≡ (q.tail + count q) % q.size
  head-eq = ground (arith, mod_once (q.tail + count q) q.size (omega arith))

  pub contents-push_write : (val : ℕ) → contents (push_write q val) ≡ contents q
  unfolding push_write
  contents-push_write val = window-set q.cells q.size q.tail (count q) q.head val tail_plus

  pub contents-push_publish :
      HasRoom q → contents (push_publish q) ≡ contents q ++ get_or q.cells q.head 0 ∷ []
  unfolding push_publish
  contents-push_publish h =
      let e : count (push_publish q) ≡ suc (count q) = omega (arith, push_publish-IsValid q v h) in
      rw e (rw (← head-eq))

  pub contents-update_tail :
      (k : ℕ)
      → q.tail + k ≤ q.size
      → HasValues q k
      → contents q ≡ row q.cells q.tail k ++ contents (update_tail q q.tail k)
  unfolding update_tail
  contents-update_tail k h l =
      ap (window q.cells q.size q.tail) e
      ∙ window-append q.cells q.size q.tail k (count (update_tail q q.tail k))
      ∙ rw (row-window q.cells q.size q.tail k h) (
          ap
            (λ i.
              window q.cells q.size q.tail k
              ++ window q.cells q.size (i % q.size) (count (update_tail q q.tail k)))
            (sym no_wrap))
    where
      e : count q ≡ k + count (update_tail q q.tail k)
      e = omega (arith, update_tail-IsValid q v k h l)

      no_wrap : add32 q.tail k ≡ q.tail + k
      no_wrap = mod-eq_of_lt {n = q.tail + k} {m = 2 ^ 32} (omega arith)

-- A row that the producer's slot is not in stays as it is.
row-set :
    (cells : List ℕ) (t k h v : ℕ) → (h < t) ⊎ (t + k ≤ h) → row (set cells h v) t k ≡ row cells t k
row-set cells t zero h v o = refl
row-set cells t (suc k) h v o =
    rw (row-set cells t k h v (ground arith), get_or-set_ne cells h (t + k) v 0 (ground arith))

module _ (q : Queue) (v : IsValid q) where
  pub row-push_write :
      (k val : ℕ)
      → q.tail + k ≤ q.size
      → HasValues q k
      → row (push_write q val).cells q.tail k ≡ row q.cells q.tail k
  unfolding push_write
  row-push_write k val h l = row-set q.cells q.tail k q.head val (ground arith)

  -- The producer's next access leaves what the consumer knows.
  pub ConsumerInv-push_write :
      (val : ℕ) (c : Consumer) → ConsumerInv q c → ConsumerInv (push_write q val) c
  unfolding push_write
  ConsumerInv-push_write val Consumer.outside h = tt
  ConsumerInv-push_write val ready h = h
  ConsumerInv-push_write val (taken x) (h, e) =
      (h, get_or-set_ne q.cells q.head q.tail val 0 (ground arith) ∙ e)
  ConsumerInv-push_write val (bulk k read) (h, fits, le, e) =
      (h, fits, le, e ∙ sym (row-push_write (length read) val (omega arith) (omega arith)))

-- An operation that leaves the fields that one thread knows of leaves what it knows.
pub ProducerInv-same :
    (q r : Queue) (p : Producer)
    → r.head ≡ q.head
    → r.size ≡ q.size
    → r.cells ≡ q.cells
    → r.cached_tail ≡ q.cached_tail
    → ProducerInv q p
    → ProducerInv r p
ProducerInv-same q r Producer.outside a b c d h = tt
ProducerInv-same q r (passed val) a b c d h = rw (a, b, d) h
ProducerInv-same q r (written val) a b c d h = rw (a, b, c, d) h

pub ConsumerInv-same :
    (q r : Queue) (c : Consumer)
    → r.tail ≡ q.tail
    → r.size ≡ q.size
    → r.cells ≡ q.cells
    → r.cached_head ≡ q.cached_head
    → ConsumerInv q c
    → ConsumerInv r c
ConsumerInv-same q r Consumer.outside a b c d h = tt
ConsumerInv-same q r ready a b c d h = rw (a, b, d) h
ConsumerInv-same q r (taken val) a b c d h = rw (a, b, c, d) h
ConsumerInv-same q r (bulk k read) a b c d h = rw (a, b, c, d) h

pub contents-same :
    (q r : Queue)
    → r.head ≡ q.head
    → r.tail ≡ q.tail
    → r.size ≡ q.size
    → r.cells ≡ q.cells
    → contents r ≡ contents q
contents-same q r a b c d = rw (a, b, c, d)
