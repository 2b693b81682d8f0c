-- ===== src/Report/MicroFlow/Counts.antt =====
-- When `src/modules/dpi/report/micro_flow_report.c` reports an entry, and with which identifier.
use mmt_probe.Base.{
  ℕ, zero, suc, ◌+◌, ◌*◌, ◌≤◌, ◌≡◌, refl, false, List, [], ◌∷◌, ◌++◌, get_or, set, ltb,
  if◌then◌else◌, Bool-cases, inl, inr, arith,
}
use mmt_probe.Base.Words.{add32}
use mmt_probe.Report.MicroFlow.{
  MicroFlowConf, Session, MicroFlowStats, no_flows, micro_flow_report_alloc_init, count_session,
  is_over, reset, update_stat, micro_flow_report__update, micro_flow_report_release,
}
use mmt_probe.Report.MicroFlow.Conserve.{run}

reset-within :
    (config : MicroFlowConf) (stat : MicroFlowStats) → is_over config (reset stat) ≡ false
unfolding is_over reset
reset-within config stat = ground arith

-- After an update, the entry is within every limit that the code tests, and a report was printed
-- just when the session's counts took the entry past one of them; the report then holds the
-- counts with the session's included.
pub update_stat_lem :
    (config : MicroFlowConf) (stat : MicroFlowStats) (s : Session)
    → (is_over config (update_stat config stat s).1 ≡ false)
      × ((update_stat config stat s).0
          ≡ (if is_over config (count_session stat s) then count_session stat s ∷ [] else []))
unfolding update_stat
update_stat_lem config stat s = elim (Bool-cases (is_over config (count_session stat s))) [
  | inl e ↦ rw e (reset-within config (count_session stat s), refl)
  | inr e ↦ rw e (e, refl)
]

-- A session of uploaded packets alone, however many, leads to no report while the bytes, twice
-- the downloaded packets and the flows of the entry stay within their limits: the uploaded
-- packets count towards no limit.
pub uploads-unreported :
    (config : MicroFlowConf) (stat : MicroFlowStats) (s : Session)
    → s.dl_packet_count ≡ 0
    → add32 (add32 stat.dl_bcount s.dl_byte_count) (add32 stat.ul_bcount s.ul_byte_count)
      ≤ config.report_bytes_count
    → 2 * stat.dl_pcount ≤ config.report_packets_count
    → stat.flows_nb + 1 ≤ config.report_flows_count
    → (update_stat config stat s).0 ≡ []
unfolding update_stat is_over count_session
uploads-unreported config stat s d b p f = ground arith

abbrev pub AllUnnamed : List MicroFlowStats → Type 0
AllUnnamed [] = Unit {0}
AllUnnamed (s ∷ l) = (s.application_id ≡ 0) × AllUnnamed l

AllUnnamed-append : (a b : List MicroFlowStats) → AllUnnamed a → AllUnnamed b → AllUnnamed (a ++ b)
AllUnnamed-append [] b h k = k
AllUnnamed-append (s ∷ a) b h k = (h.0, AllUnnamed-append a b h.1 k)

update_stat-AllUnnamed :
    (config : MicroFlowConf) (stat : MicroFlowStats) (s : Session)
    → stat.application_id ≡ 0
    → AllUnnamed (update_stat config stat s).0 × ((update_stat config stat s).1.application_id ≡ 0)
unfolding update_stat count_session reset
update_stat-AllUnnamed config stat s h = elim (Bool-cases (is_over config (count_session stat s))) [
  | inl e ↦ rw e ((h, omega arith), h)
  | inr e ↦ rw e (omega arith, h)
]

get_or-unnamed :
    (l : List MicroFlowStats) (i : ℕ) → AllUnnamed l → (get_or l i no_flows).application_id ≡ 0
get_or-unnamed [] i h = refl
get_or-unnamed (x ∷ l) zero h = h.0
get_or-unnamed (x ∷ l) (suc i) h = get_or-unnamed l i h.1

set-AllUnnamed :
    (l : List MicroFlowStats) (i : ℕ) (s : MicroFlowStats)
    → AllUnnamed l
    → s.application_id ≡ 0
    → AllUnnamed (set l i s)
set-AllUnnamed [] i s h k = h
set-AllUnnamed (x ∷ l) zero s h k = (k, h.1)
set-AllUnnamed (x ∷ l) (suc i) s h k = (h.0, set-AllUnnamed l i s h.1 k)

release-AllUnnamed :
    (l : List MicroFlowStats) → AllUnnamed l → AllUnnamed (micro_flow_report_release l)
unfolding micro_flow_report_release
release-AllUnnamed [] h = h
release-AllUnnamed (s ∷ l) h = elim (Bool-cases (ltb 0 s.flows_nb)) [
  | inl e ↦ rw e (h.0, release-AllUnnamed l h.1)
  | inr e ↦ rw e (release-AllUnnamed l h.1)
]

init-AllUnnamed : (n : ℕ) → AllUnnamed (micro_flow_report_alloc_init n)
init-AllUnnamed zero = omega arith
init-AllUnnamed (suc n) = (refl, init-AllUnnamed n)

run-unnamed_from :
    (config : MicroFlowConf) (stats : List MicroFlowStats) (l : List Session)
    → AllUnnamed stats
    → AllUnnamed (run config stats l)
unfolding run micro_flow_report__update
run-unnamed_from config stats [] h = release-AllUnnamed stats h
run-unnamed_from config stats (s ∷ l) h =
    let old = get_or stats s.proto_id no_flows in
    let (a, b) = update_stat-AllUnnamed config old s (get_or-unnamed stats s.proto_id h) in
    AllUnnamed-append (update_stat config old s).0
      (run config (set stats s.proto_id (update_stat config old s).1) l) a
      (run-unnamed_from config (set stats s.proto_id (update_stat config old s).1) l
        (set-AllUnnamed stats s.proto_id (update_stat config old s).1 h b))

-- Every report of a run, whatever its sessions are, gives 0 as its application identifier.
pub run-AllUnnamed :
    (config : MicroFlowConf) (proto_max : ℕ) (sessions : List Session)
    → AllUnnamed (run config (micro_flow_report_alloc_init proto_max) sessions)
run-AllUnnamed config proto_max sessions =
    run-unnamed_from config (micro_flow_report_alloc_init proto_max) sessions
      (init-AllUnnamed proto_max)
