-- ===== src/Dynamic/Bus/Slots.antt =====
-- The three slots of the bus, when processes come and go.
use mmt_probe.Base.{
  ℕ, ◌≡◌, ◌≢◌, refl, true, false, List, [], ◌∷◌, none, some, arith, Option-cases, inl, inr,
}
use mmt_probe.Dynamic.Bus.{
  Message, Subscriber, Bus, fresh, free_slot, subscribe, register, no_slot, find_slot,
}

-- A subscriber that registers while no slot is free is refused, and the bus stays as it is.
pub register-no_slot :
    (pid : ℕ) (cb : Message → ℕ) (l : List Subscriber)
    → find_slot pid l ≡ none
    → find_slot 0 l ≡ none
    → register pid cb l ≡ no_slot
unfolding register find_slot
register-no_slot pid cb [] h k = refl
register-no_slot pid cb (s ∷ l) h k = elim (Option-cases (find_slot pid l)) [
  | inr (i, e) ↦ absurd (ground arith)
  | inl n ↦ elim (Option-cases (find_slot 0 l)) [
    | inr (i, e) ↦ absurd (ground arith)
    | inl z ↦ ground (arith, register-no_slot pid cb l n z)
  ]
]

-- A process that starts, subscribes and ends without unsubscribing keeps its slot. So the third
-- process that is started in this way, beside the one that stays, is refused for good.
pub restarts-exhaust :
    (monitor first second third : ℕ) (f g h k : Message → ℕ)
    → monitor ≢ 0
    → first ≢ 0
    → second ≢ 0
    → monitor ≢ first
    → monitor ≢ second
    → first ≢ second
    → monitor ≢ third
    → first ≢ third
    → second ≢ third
    → third ≢ 0
    → (a b c : Bus) × (subscribe true monitor f fresh ≡ some (true, a))
      × (subscribe true first g a ≡ some (true, b))
      × (subscribe true second h b ≡ some (true, c))
      × (subscribe true third k c ≡ some (false, c))
unfolding subscribe
restarts-exhaust monitor first second third f g h k n1 n2 n3 n4 n5 n6 n7 n8 n9 n0 =
    let s1 : Subscriber = record { pid = monitor; is_consumed = true; callback = some f } in
    let s2 : Subscriber = record { pid = first; is_consumed = true; callback = some g } in
    let s3 : Subscriber = record { pid = second; is_consumed = true; callback = some h } in
    (
      record fresh { nb_subscribers = 1; sub_lst = s1 ∷ free_slot ∷ free_slot ∷ [] },
      record fresh { nb_subscribers = 2; sub_lst = s1 ∷ s2 ∷ free_slot ∷ [] },
      record fresh { nb_subscribers = 3; sub_lst = s1 ∷ s2 ∷ s3 ∷ [] },
      ground arith,
      ground arith,
      ground arith,
      ground arith,
    )
