-- ===== src/Dynamic/Bus/Count.antt =====
-- The subscriber count of the bus, under all that its users may do.
use mmt_probe.Base.{
  ℕ, zero, suc, ◌+◌, ◌≤◌, ◌≡◌, ◌≢◌, refl, sym, ◌∙◌, Bool, true, List, [], ◌∷◌, Option, none, some,
  length, ◌==◌, Bool-cases, Option-cases, inl, inr, if◌then◌else◌, arith,
}
use mmt_probe.Dynamic.Bus.{
  Message, Subscriber, Bus, fresh, mark_unread, store, mark_read, check_reply, Scan, registered,
  register, no_slot, mistake, subscribe, unregister, unsubscribe, behind, subscribed, unsubscribed,
  max_subscribers,
}

-- the slots that are in use
abbrev pub used : List Subscriber → ℕ
used [] = 0
used (s ∷ l) = (if s.pid == 0 then 0 else 1) + used l

pub record IsCounted (b : Bus) : Type 0 where
  pub slots : length b.sub_lst ≡ max_subscribers
  pub counted : b.nb_subscribers ≡ used b.sub_lst

-- What the users of the bus may do to it, in any order.
pub data Step : Bus → Bus → Type 0 where
  stores : (m : Message) (b : Bus) → Step b (store m b).1
  replies : (i ret : ℕ) (b : Bus) → Step b (check_reply true i ret b)
  subscribes :
      (pid : ℕ) (cb : Message → ℕ) (done : Bool) (b c : Bus)
      → pid ≢ 0
      → subscribe true pid cb b ≡ some (done, c)
      → Step b c
  unsubscribes : (pid : ℕ) (b : Bus) → pid ≢ 0 → Step b (unsubscribe true pid b).1

pub data Reach : Bus → Type 0 where
  start : Reach fresh
  next : {b c : Bus} → Reach b → Step b c → Reach c

mark_unread_same :
    (l : List Subscriber) → (length (mark_unread l) ≡ length l) × (used (mark_unread l) ≡ used l)
unfolding mark_unread
mark_unread_same [] = (refl, refl)
mark_unread_same (s ∷ l) = omega (arith, mark_unread_same l)

mark_read_same :
    (i : ℕ) (l : List Subscriber)
    → (length (mark_read i l) ≡ length l) × (used (mark_read i l) ≡ used l)
unfolding mark_read
mark_read_same i [] = (refl, refl)
mark_read_same zero (s ∷ l) = (refl, refl)
mark_read_same (suc i) (s ∷ l) = omega (arith, mark_read_same i l)

used-le : (l : List Subscriber) → used l ≤ length l
used-le [] = omega arith
used-le (s ∷ l) = ground (arith, used-le l)

behind-registered :
    (s : Subscriber) (o : Scan) (r : List Subscriber)
    → behind s o ≡ registered r
    → (q : List Subscriber) × (o ≡ registered q) × (r ≡ s ∷ q)
unfolding behind
behind-registered s (registered q) r e = (q, refl, cc)
behind-registered s mistake r e = cc
behind-registered s no_slot r e = cc

-- A registration takes one free slot.
register_same :
    (pid : ℕ) (cb : Message → ℕ) (l r : List Subscriber)
    → pid ≢ 0
    → register pid cb l ≡ registered r
    → (length r ≡ length l) × (used r ≡ used l + 1)
unfolding register
register_same pid cb [] r ne e = cc
register_same pid cb (s ∷ l) r ne e = elim (Bool-cases (s.pid == pid)) [
  | inl own ↦ absurd (ground arith)
  | inr other ↦ elim (Bool-cases (s.pid == 0)) [
    | inl free ↦ ground arith
    | inr taken ↦
        let (q, f, g) = behind-registered s (register pid cb l) r (rw (other, taken) at e) in
        ground (arith, register_same pid cb l q ne f)
  ]
]

unregister_same :
    (pid : ℕ) (l r : List Subscriber)
    → pid ≢ 0
    → unregister pid l ≡ some r
    → (length r ≡ length l) × (used r + 1 ≡ used l)
unfolding unregister
unregister_same pid [] r ne e = cc
unregister_same pid (s ∷ l) r ne e = elim (Option-cases (unregister pid l)) [
  | inl n ↦ ground arith
  | inr (q, f) ↦ ground (arith, unregister_same pid l q ne f)
]

used_bound : {b : Bus} → IsCounted b → b.nb_subscribers ≤ 3
used_bound {b} v = omega (arith, v, used-le b.sub_lst)

subscribed-IsCounted :
    (b c : Bus) (done : Bool) (o : Scan)
    → ((r : List Subscriber)
        → o ≡ registered r
        → (length r ≡ length b.sub_lst) × (used r ≡ used b.sub_lst + 1))
    → IsCounted b
    → subscribed b o ≡ some (done, c)
    → IsCounted c
unfolding subscribed
subscribed-IsCounted b c done mistake h v e = cc
subscribed-IsCounted b c done no_slot h v e = ground (arith, v.slots, v.counted)
subscribed-IsCounted b c done (registered r) h v e =
    let (l, u) = h r refl in ground (arith, l, u, used_bound v, v.slots, v.counted)

unsubscribed-IsCounted :
    (b : Bus) (o : Option (List Subscriber))
    → ((r : List Subscriber)
        → o ≡ some r
        → (length r ≡ length b.sub_lst) × (used r + 1 ≡ used b.sub_lst))
    → IsCounted b
    → IsCounted (unsubscribed b o).1
unfolding unsubscribed
unsubscribed-IsCounted b none h v = v
unsubscribed-IsCounted b (some r) h v =
    let (l, u) = h r refl in ground (arith, l, u, used_bound v, v.slots, v.counted)

Step-IsCounted : {b c : Bus} → Step b c → IsCounted b → IsCounted c
Step-IsCounted (stores m b) v =
    let (l, u) = mark_unread_same b.sub_lst in unfold store in ground (arith, l, u)
Step-IsCounted (replies i ret b) v =
    let (l, u) = mark_read_same i b.sub_lst in
    unfold check_reply in record { slots = l ∙ v.slots; counted = v.counted ∙ sym u }
Step-IsCounted (subscribes pid cb done b c ne e) v =
    unfold subscribe in
    subscribed-IsCounted b c done (register pid cb b.sub_lst)
      (λ r. register_same pid cb b.sub_lst r ne) v e
Step-IsCounted (unsubscribes pid b ne) v =
    unfold unsubscribe in
    unsubscribed-IsCounted b (unregister pid b.sub_lst) (λ r. unregister_same pid b.sub_lst r ne) v

-- Whatever the users of the bus do, the count is the number of slots in use, of three.
pub Reach-IsCounted : {b : Bus} → Reach b → IsCounted b
Reach-IsCounted start = omega arith
Reach-IsCounted (next r s) = Step-IsCounted s (Reach-IsCounted r)
