-- ===== src/Tests/Monitor.antt =====
-- The monitor process of `src/main.c` over a few turns.
use mmt_probe.Base.{ℕ, ◌+◌, ◌≡◌, refl, true, false, none, some}
use mmt_probe.Base.Bytes.{Bytes}
use mmt_probe.Dynamic.Update.{Param}
use mmt_probe.Monitor.{
  need_to_create, running, Children, nobody, ended_child, goes_on, turn, check_children,
  create_child,
}
use mmt_probe.Monitor.Restart.{Answers, turn_with, Reach, begins, next}

abbrev count_params : Bytes → Param → ℕ → ℕ
count_params b p n = n + 1

abbrev begun : Children
begun = record { processing = running 12; control = need_to_create }

abbrev forks : Answers
forks = record { forked = some 12; forked_control = none; waited = nobody }

abbrev exits : Answers
exits = record { forked = none; forked_control = none; waited = ended_child 12 true }

first_turn :
    turn_with false forks (record { processing = need_to_create; control = need_to_create })
    ≡ goes_on begun
unfolding turn create_child check_children
first_turn = refl

abbrev begun-Reach : Reach 4 false begun
begun-Reach = next begins forks first_turn
