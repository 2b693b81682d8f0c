-- ===== src/Monitor/Restart.antt =====
-- The loop of `_create_sub_processes` of `src/main.c`.
use mmt_probe.Base.{
  ℕ, ◌≡◌, ◌⊎◌, refl, sym, ap, ◌∙◌, Bool, true, false, ◌&&◌, ◌||◌, not, List, [], ◌∷◌, Option, none,
  some, if◌then◌else◌, Option-cases, ◌==◌, Bool-cases, inl, inr, arith,
}
use mmt_probe.Monitor.{
  Child, need_to_create, need_to_stop, running, Children, Waited, wait_error, nobody, ended_child,
  create_child, is_stopped, update_status, all_stopped, Turn, aborted, goes_on, check_children,
  with_processing, turn, Command, Signal,
}
use mmt_probe.Monitor.Commands.{
  Effect, refuses, pending, creates, interrupts, stops_nothing, restarts, keeps, ignores,
}

-- the answers of the system to one turn of the loop
pub record Answers : Type 0 where
  pub forked : Option ℕ
  pub forked_control : Option ℕ
  pub waited : Waited

abbrev pub turn_with : Bool → Answers → Children → Turn
turn_with is_dynamic a c = turn is_dynamic a.forked a.forked_control a.waited c

-- several turns
pub turns : Bool → List Answers → Turn → Turn
turns is_dynamic [] t = t
turns is_dynamic (a ∷ l) (goes_on c) = turns is_dynamic l (turn_with is_dynamic a c)
turns is_dynamic (a ∷ l) t = t

-- The states between two turns: after turns and, where the dynamic configuration is enabled,
-- commands, in any order.
pub data Reach (size : ℕ) (is_dynamic : Bool) : Children → Type 0 where
  begins : Reach size is_dynamic (record { processing = need_to_create; control = need_to_create })
  next :
      {c d : Children}
      → Reach size is_dynamic c
      → (a : Answers) → turn_with is_dynamic a c ≡ goes_on d
      → Reach size is_dynamic d
  commanded :
      {c : Children}
      → Reach size is_dynamic c
      → is_dynamic ≡ true
      → (cmd : Command) (p : Child) (s : Option Signal) → Effect size cmd c.processing p s
      → Reach size is_dynamic (record { processing = p; control = c.control })

create-is_stopped :
    (c d : Child) (f : Option ℕ) → create_child c f ≡ some d → is_stopped d ≡ is_stopped c
unfolding create_child
create-is_stopped need_to_create d none e = cc
create-is_stopped need_to_create d (some pid) e = cc
create-is_stopped need_to_stop d f e = cc
create-is_stopped (running pid) d f e = cc

-- The children after the forks of a turn, both of which succeed where they are made.
pub record Forks (is_dynamic : Bool) (a : Answers) (c d : Children) : Type 0 where
  pub processing : create_child c.processing a.forked ≡ some d.processing
  pub control :
      (if is_dynamic then create_child c.control a.forked_control else some c.control)
      ≡ some d.control

-- A turn that does not end in ABORT checks children of which the same ones have stopped.
turn-cases :
    (b : Bool) (f g : Option ℕ) (w : Waited) (c : Children)
    → (turn b f g w c ≡ aborted)
      ⊎ ((d : Children) × (turn b f g w c ≡ check_children b w d)
          × (all_stopped b d ≡ all_stopped b c)
          × Forks b (record { forked = f; forked_control = g; waited = w }) c d)
unfolding turn all_stopped
turn-cases b f g w c = elim (Option-cases (create_child c.processing f)) [
  | inl e ↦ rw e (inl refl)
  | inr (p, e) ↦ second b p e
]
  where
    second :
        (b' : Bool) (p : Child)
        → create_child c.processing f ≡ some p
        → (with_processing b' g w c.control (create_child c.processing f) ≡ aborted)
          ⊎ ((d : Children) × (with_processing b' g w c.control (create_child c.processing f)
                ≡ check_children b' w d)
              × ((is_stopped d.processing && (not b' || is_stopped d.control))
                  ≡ (is_stopped c.processing && (not b' || is_stopped c.control)))
              × Forks b' (record { forked = f; forked_control = g; waited = w }) c d)
    second false p e = rw e (
        inr (
          record { processing = p; control = c.control },
          refl,
          ap (λ x. x && true) (create-is_stopped c.processing p f e),
          record { processing = e; control = refl },
        ))
    second true p e = elim (Option-cases (create_child c.control g)) [
      | inl k ↦ rw (e, k) (inl refl)
      | inr (q, k) ↦
          rw (e, k)
            (inr (
              record { processing = p; control = q },
              refl,
              ap (λ x. x && is_stopped q) (create-is_stopped c.processing p f e)
                  ∙ ap (λ x. is_stopped c.processing && x) (create-is_stopped c.control q g k),
              record { processing = e; control = k },
            ))
    ]

check_children-goes_on :
    (b : Bool) (w : Waited) (c d : Children)
    → all_stopped b c ≡ false
    → check_children b w c ≡ goes_on d
    → all_stopped b d ≡ false
unfolding check_children
check_children-goes_on b wait_error c d h e = cc
check_children-goes_on b nobody c d h e = cc
check_children-goes_on b (ended_child pid ok) c d h e =
    elim (Bool-cases (all_stopped b (update_status b pid ok c))) [ inl k ↦ cc | inr k ↦ cc ]

command-goes_on :
    (size : ℕ) (b : Bool) (cmd : Command) (p q : Child) (s : Option Signal) (control : Child)
    → Effect size cmd p q s
    → all_stopped b (record { processing = p; control = control }) ≡ false
    → all_stopped b (record { processing = q; control = control }) ≡ false
unfolding all_stopped
command-goes_on size b _ _ _ _ control (refuses pid) h = h
command-goes_on size b _ _ _ _ control pending h = h
command-goes_on size b _ _ _ _ control creates h = refl
command-goes_on size b _ _ _ _ control (interrupts pid) h = h
command-goes_on size b _ _ _ _ control (stops_nothing c e) h = h
command-goes_on size b _ _ _ _ control (restarts m n pid e) h = h
command-goes_on size b _ _ _ _ control (keeps m n c e) h = h
command-goes_on size b _ _ _ _ control (ignores c) h = h

-- Between two turns of the loop, whatever the system answered and whatever commands came, some
-- child is running or is to be created.
pub Reach-has_child :
    (size : ℕ) (b : Bool) (c : Children) → Reach size b c → all_stopped b c ≡ false
Reach-has_child size b _ begins = unfold all_stopped in refl
Reach-has_child size b _ (next {c} {d} r a e) =
    elim (turn-cases b a.forked a.forked_control a.waited c) [
      | inl k ↦ cc
      | inr (m, k, l, made) ↦
          check_children-goes_on b a.waited m d (l ∙ Reach-has_child size b c r) (sym k ∙ e)
    ]
Reach-has_child size b _ (commanded {c} r d cmd p s e) =
    command-goes_on size b cmd c.processing p s c.control e (Reach-has_child size b c r)

same : (n : ℕ) → (n == n) ≡ true
same n = ground arith

first_turn :
    (b : Bool) (pid control : ℕ) (f g : Option ℕ)
    → turn b f g
        (ended_child pid false)
        (record { processing = running pid; control = running control })
      ≡ goes_on (record { processing = need_to_create; control = running control })
unfolding turn check_children create_child update_status all_stopped
first_turn false pid control f g = rw (same pid) refl
first_turn true pid control f g = rw (same pid) refl

second_turn :
    (b : Bool) (control new : ℕ) (h : Option ℕ)
    → turn b (some new) h nobody (record { processing = need_to_create; control = running control })
      ≡ goes_on (record { processing = running new; control = running control })
unfolding turn check_children create_child
second_turn false control new h = refl
second_turn true control new h = refl

-- When the processing process ends in another way than with EXIT_SUCCESS, the loop goes on, and
-- its next turn, when the fork succeeds, runs a new process in its place, and leaves the control
-- process as it is.
pub crashed-restarts :
    (b : Bool) (pid control new : ℕ) (f g h : Option ℕ)
    → turns b
        (record { forked = f; forked_control = g; waited = ended_child pid false }
          ∷ record { forked = some new; forked_control = h; waited = nobody }
          ∷ [])
        (goes_on (record { processing = running pid; control = running control }))
      ≡ goes_on (record { processing = running new; control = running control })
unfolding turns
crashed-restarts b pid control new f g h =
    ap (turns b (record { forked = some new; forked_control = h; waited = nobody } ∷ []))
      (first_turn b pid control f g)
    ∙ second_turn b control new h
