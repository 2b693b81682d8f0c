-- ===== src/Report/MicroFlow/Conserve.antt =====
-- The totals of `src/modules/dpi/report/micro_flow_report.c` over a run: a list of sessions, and
-- the release of the context behind them.
use mmt_probe.Base.{
  ℕ, zero, suc, ◌+◌, ◌%◌, ◌^◌, ◌≤◌, ◌<◌, ◌≡◌, refl, ap, sym, subst, List, [], ◌∷◌, ◌++◌, length,
  get_or, set, length-set, length-replicate, ltb, Bool-cases, inl, inr, arith,
}
use mmt_probe.Base.Words.{add32}
use mmt_probe.Report.MicroFlow.{
  MicroFlowConf, Session, MicroFlowStats, no_flows, micro_flow_report_alloc_init, count_session,
  is_over, reset, update_stat, micro_flow_report__update, micro_flow_report_release,
}

-- the columns of a report that count
pub data Column : Type 0 where
  flows : Column
  dl_packets : Column
  ul_packets : Column
  dl_bytes : Column
  ul_bytes : Column

abbrev pub column : Column → MicroFlowStats → ℕ
column flows s = s.flows_nb
column dl_packets s = s.dl_pcount
column ul_packets s = s.ul_pcount
column dl_bytes s = s.dl_bcount
column ul_bytes s = s.ul_bcount

-- what a session adds to a column
abbrev pub adds : Column → Session → ℕ
adds flows s = 1
adds dl_packets s = s.dl_packet_count
adds ul_packets s = s.ul_packet_count
adds dl_bytes s = s.dl_byte_count
adds ul_bytes s = s.ul_byte_count

abbrev pub total : Column → List MicroFlowStats → ℕ
total c [] = 0
total c (s ∷ l) = column c s + total c l

abbrev pub total_added : Column → List Session → ℕ
total_added c [] = 0
total_added c (s ∷ l) = adds c s + total_added c l

-- all reports of a run, those of the release last
unfoldable pub run : MicroFlowConf → List MicroFlowStats → List Session → List MicroFlowStats
run config stats [] = micro_flow_report_release stats
run config stats (s ∷ l) =
    let (reports, stats') = micro_flow_report__update config stats s in
    reports ++ run config stats' l

-- every session has an identifier below the size of the table
abbrev pub AllInRange : ℕ → List Session → Type 0
AllInRange n [] = Unit {0}
AllInRange n (s ∷ l) = (s.proto_id < n) × AllInRange n l

-- An entry has no more flows than the limit, and one of no flows counts nothing.
abbrev pub IsConsistent : MicroFlowConf → MicroFlowStats → Type 0
IsConsistent config s =
    (s.flows_nb ≤ config.report_flows_count) × ((c : Column) → s.flows_nb ≡ 0 → column c s ≡ 0)

abbrev pub AllConsistent : MicroFlowConf → List MicroFlowStats → Type 0
AllConsistent config [] = Unit {0}
AllConsistent config (s ∷ l) = IsConsistent config s × AllConsistent config l

total-append : (c : Column) (a b : List MicroFlowStats) → total c (a ++ b) ≡ total c a + total c b
total-append c [] b = omega arith
total-append c (s ∷ a) b = omega (arith, total-append c a b)

total-set :
    (c : Column) (l : List MicroFlowStats) (i : ℕ) (s : MicroFlowStats)
    → i < length l
    → total c (set l i s) + column c (get_or l i no_flows) ≡ total c l + column c s
total-set c [] i s h = absurd (omega arith)
total-set c (x ∷ l) zero s h = omega arith
total-set c (x ∷ l) (suc i) s h = omega (arith, total-set c l i s (omega arith))

column-count_session :
    (c : Column) (stat : MicroFlowStats) (s : Session)
    → column c (count_session stat s) ≡ add32 (column c stat) (adds c s)
unfolding count_session
column-count_session flows stat s = refl
column-count_session dl_packets stat s = refl
column-count_session ul_packets stat s = refl
column-count_session dl_bytes stat s = refl
column-count_session ul_bytes stat s = refl

column-reset : (c : Column) (stat : MicroFlowStats) → column c (reset stat) ≡ 0
unfolding reset
column-reset flows stat = refl
column-reset dl_packets stat = refl
column-reset ul_packets stat = refl
column-reset dl_bytes stat = refl
column-reset ul_bytes stat = refl

update_stat-total :
    (config : MicroFlowConf) (c : Column) (stat : MicroFlowStats) (s : Session)
    → (total c (update_stat config stat s).0 + column c (update_stat config stat s).1)
      ≡ add32 (column c stat) (adds c s)
unfolding update_stat
update_stat-total config c stat s = elim (Bool-cases (is_over config (count_session stat s))) [
  | inl e ↦
      rw (e, column-reset c (count_session stat s), sym (column-count_session c stat s))
        (omega arith)
  | inr e ↦ rw e (omega (arith, column-count_session c stat s))
]

release-total :
    (config : MicroFlowConf) (c : Column) (l : List MicroFlowStats)
    → AllConsistent config l
    → total c (micro_flow_report_release l) ≡ total c l
unfolding micro_flow_report_release
release-total config c [] h = refl
release-total config c (s ∷ l) h = elim (Bool-cases (ltb 0 s.flows_nb)) [
  | inl e ↦ rw e (ap (◌+◌ (column c s)) (release-total config c l h.1))
  | inr e ↦ rw e (omega (arith, release-total config c l h.1, h.0.1 c (ground arith)))
]

update_stat-IsConsistent :
    (config : MicroFlowConf) (stat : MicroFlowStats) (s : Session)
    → config.report_flows_count + 1 < 2 ^ 32
    → IsConsistent config stat
    → IsConsistent config (update_stat config stat s).1
unfolding update_stat
update_stat-IsConsistent config stat s small h =
    elim (Bool-cases (is_over config (count_session stat s))) [
      | inl e ↦ rw e (
        rw (column-reset flows (count_session stat s)) (omega arith),
        λ c _. column-reset c (count_session stat s),
      )
      | inr e ↦ rw e (
        unfold is_over in ground arith,
        λ c z. absurd (omega (arith, column-count_session flows stat s)),
      )
    ]

column-no_flows : (c : Column) → column c no_flows ≡ 0
column-no_flows flows = refl
column-no_flows dl_packets = refl
column-no_flows ul_packets = refl
column-no_flows dl_bytes = refl
column-no_flows ul_bytes = refl

init-AllConsistent :
    (config : MicroFlowConf) (n : ℕ) → AllConsistent config (micro_flow_report_alloc_init n)
init-AllConsistent config zero = omega arith
init-AllConsistent config (suc n) =
    ((omega arith, λ c _. column-no_flows c), init-AllConsistent config n)

total-init : (c : Column) (n : ℕ) → total c (micro_flow_report_alloc_init n) ≡ 0
total-init c zero = refl
total-init c (suc n) = omega (arith, column-no_flows c, total-init c n)

get_or-IsConsistent :
    (config : MicroFlowConf) (l : List MicroFlowStats) (i : ℕ)
    → AllConsistent config l
    → IsConsistent config (get_or l i no_flows)
get_or-IsConsistent config [] i h = (omega arith, λ c _. column-no_flows c)
get_or-IsConsistent config (x ∷ l) zero h = h.0
get_or-IsConsistent config (x ∷ l) (suc i) h = get_or-IsConsistent config l i h.1

set-AllConsistent :
    (config : MicroFlowConf) (l : List MicroFlowStats) (i : ℕ) (s : MicroFlowStats)
    → AllConsistent config l
    → IsConsistent config s
    → AllConsistent config (set l i s)
set-AllConsistent config [] i s h k = h
set-AllConsistent config (x ∷ l) zero s h k = (k, h.1)
set-AllConsistent config (x ∷ l) (suc i) s h k = (h.0, set-AllConsistent config l i s h.1 k)

run-total :
    (config : MicroFlowConf) (c : Column) (stats : List MicroFlowStats) (l : List Session)
    → config.report_flows_count + 1 < 2 ^ 32
    → AllConsistent config stats
    → AllInRange (length stats) l
    → total c (run config stats l) % 2 ^ 32 ≡ (total c stats + total_added c l) % 2 ^ 32
unfolding run micro_flow_report__update
run-total config c stats [] small h k = omega (arith, release-total config c stats h)
run-total config c stats (s ∷ l) small h k =
    let old = get_or stats s.proto_id no_flows in
    let new = (update_stat config old s).1 in
    let stats' = set stats s.proto_id new in
    let rest =
      run-total config c stats' l small
        (set-AllConsistent config stats s.proto_id new h (
          update_stat-IsConsistent config old s small
            (get_or-IsConsistent config stats s.proto_id h)))
        (subst (λ n. AllInRange n l) (sym (length-set stats s.proto_id new)) k.1) in
    omega (
      arith,
      rest,
      total-append c (update_stat config old s).0 (run config stats' l),
      update_stat-total config c old s,
      total-set c stats s.proto_id new k.0,
    )

-- When the limit on flows is below 2^32 - 1 and each of the sessions has an identifier below the
-- size of the table, the reports of the whole run, those of the release included, account for
-- every flow, packet and byte of the sessions: in each column, they add up to what the sessions
-- count, modulo 2^32.
pub run-conserves :
    (config : MicroFlowConf) (c : Column) (proto_max : ℕ) (sessions : List Session)
    → config.report_flows_count + 1 < 2 ^ 32
    → AllInRange proto_max sessions
    → total c (run config (micro_flow_report_alloc_init proto_max) sessions) % 2 ^ 32
      ≡ total_added c sessions % 2 ^ 32
run-conserves config c proto_max sessions small k = omega (
  arith,
  total-init c proto_max,
  run-total config c (micro_flow_report_alloc_init proto_max) sessions small
      (init-AllConsistent config proto_max)
      (subst (λ n. AllInRange n sessions) (sym (length-replicate proto_max no_flows)) k),
)
