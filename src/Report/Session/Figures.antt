-- ===== src/Report/Session/Figures.antt =====
-- What the reports of a session in src/modules/dpi/report/session_report.c add up to.
use mmt_probe.Base.{
  ℕ, ◌+◌, ◌%◌, ◌^◌, ◌≡◌, refl, sym, subst, true, List, [], ◌∷◌, Option, none, some, ◌==◌, ==_iff,
  Bool-cases, inl, inr, arith,
}
use mmt_probe.Report.Apps.{AppState}
use mmt_probe.Report.Session.{
  FlowStat, no_flow, SessionStat, Addresses, on_starting_session, Counters, Observed, total_of,
  Difference, difference, Report, print_ip_session_report, report_of, after_report,
}

-- the columns of a report that count: of the volumes, the payload or the packets, in total, up or
-- down
pub data Kind : Type 0 where
  of_volumes of_payload of_packets : Kind

pub data Part : Type 0 where
  in_total up_only down_only : Part

abbrev pub counted : Kind → Counters → FlowStat
counted of_volumes c = c.volumes
counted of_payload c = c.payload
counted of_packets c = c.packets

abbrev pub part_of : Part → FlowStat → ℕ
part_of in_total f = total_of f
part_of up_only f = f.upload
part_of down_only f = f.download

abbrev pub column : Part → Difference → ℕ
column in_total d = d.total
column up_only d = d.up
column down_only d = d.down

abbrev pub figure : Kind → Part → Report → ℕ
figure of_volumes p r = column p r.volumes
figure of_payload p r = column p r.payload
figure of_packets p r = column p r.packets

abbrev pub sum_of : Kind → Part → List Report → ℕ
sum_of k p [] = 0
sum_of k p (r ∷ rs) = figure k p r + sum_of k p rs

-- the counters that the statistics hold
abbrev pub remembered : SessionStat → Counters
remembered s = record { packets = s.packets; volumes = s.volumes; payload = s.payload }

abbrev pub no_counters : Counters
no_counters = record { packets = no_flow; volumes = no_flow; payload = no_flow }

abbrev pub prepend {ℓ} : {A : Type ℓ} → Option A → List A → List A
prepend none l = l
prepend (some a) l = a ∷ l

module _ (printed : AppState → AppState) where
  -- a list of calls of `session_report_do_report`: the reports, and the statistics
  abbrev pub do_reports : List Observed → SessionStat → List Report × SessionStat
  do_reports [] s = ([], s)
  do_reports (o ∷ os) s =
      let (report, s') = print_ip_session_report printed o s in
      let (reports, last) = do_reports os s' in (prepend report reports, last)

-- The library's counters change only with a packet of the session.
abbrev pub IsSteady : Counters → List Observed → Type 0
IsSteady before [] = Unit {0}
IsSteady before (o ∷ os) =
    (total_of o.counters.packets ≡ total_of before.packets → o.counters ≡ before)
    × IsSteady o.counters os

abbrev pub last_counters : Counters → List Observed → Counters
last_counters before [] = before
last_counters before (o ∷ os) = last_counters o.counters os

difference-column :
    (p : Part) (now before : FlowStat)
    → (column p (difference now before) + part_of p before) % 2 ^ 64 ≡ part_of p now % 2 ^ 64
unfolding difference
difference-column in_total now before = omega arith
difference-column up_only now before = omega arith
difference-column down_only now before = omega arith

pub figure-report_of :
    (k : Kind) (p : Part) (o : Observed) (s : SessionStat)
    → (figure k p (report_of o s) + part_of p (counted k (remembered s))) % 2 ^ 64
      ≡ part_of p (counted k o.counters) % 2 ^ 64
unfolding report_of
figure-report_of of_volumes p o s = difference-column p o.counters.volumes s.volumes
figure-report_of of_payload p o s = difference-column p o.counters.payload s.payload
figure-report_of of_packets p o s = difference-column p o.counters.packets s.packets

module _ (printed : AppState → AppState) (k : Kind) (p : Part) where
  do_reports-sums :
      (os : List Observed) (s : SessionStat)
      → IsSteady (remembered s) os
      → (sum_of k p (do_reports printed os s).0 + part_of p (counted k (remembered s))) % 2 ^ 64
        ≡ part_of p (counted k (last_counters (remembered s) os)) % 2 ^ 64
  unfolding print_ip_session_report
  do_reports-sums [] s h = omega arith
  do_reports-sums (o ∷ os) s (same, h) =
      elim (Bool-cases (total_of o.counters.packets == total_of s.packets)) [
        | inl e ↦
            let k' : o.counters ≡ remembered s = same ((==_iff _ _).0 e) in
            rw (e, k') (do_reports-sums os s (subst (λ c. IsSteady c os) k' h))
        | inr e ↦
            let s' = after_report printed o s in
            let after : remembered s' ≡ o.counters = unfold after_report in refl in
            let rest = do_reports-sums os s' (subst (λ c. IsSteady c os) (sym after) h) in
            let one = figure-report_of k p o s in
            let moved =
              subst
                (λ c.
                  (sum_of k p (do_reports printed os s').0 + part_of p (counted k c)) % 2 ^ 64
                  ≡ part_of p (counted k (last_counters c os)) % 2 ^ 64)
                after rest in
            rw e (omega (arith, moved, one))
      ]

pub fresh_remembered :
    (a : Addresses) (s : SessionStat)
    → on_starting_session true a ≡ some s
    → remembered s ≡ no_counters
unfolding on_starting_session
fresh_remembered a s e = ground arith

pub no_part : (k : Kind) (p : Part) → part_of p (counted k no_counters) ≡ 0
no_part of_volumes in_total = refl
no_part of_volumes up_only = refl
no_part of_volumes down_only = refl
no_part of_payload in_total = refl
no_part of_payload up_only = refl
no_part of_payload down_only = refl
no_part of_packets in_total = refl
no_part of_packets up_only = refl
no_part of_packets down_only = refl

-- Of a session over IP that the library's counters change only with a packet of: whatever reports
-- are made of it, in each of their columns - the volumes, the payload and the packets, in total, up
-- and down - the reports add up to what the counters say at the last call, modulo 2^64.
pub do_reports-conserve :
    (printed : AppState → AppState) (k : Kind) (p : Part) (a : Addresses) (os : List Observed)
    (s : SessionStat)
    → on_starting_session true a ≡ some s
    → IsSteady no_counters os
    → sum_of k p (do_reports printed os s).0 % 2 ^ 64
      ≡ part_of p (counted k (last_counters no_counters os)) % 2 ^ 64
unfolding on_starting_session
do_reports-conserve printed k p a os s e h =
    let fresh : remembered s ≡ no_counters = fresh_remembered a s e in
    let nothing : part_of p (counted k no_counters) ≡ 0 = no_part k p in
    let sums = do_reports-sums printed k p os s (subst (λ c. IsSteady c os) (sym fresh) h) in
    let moved =
      subst
        (λ c.
          (sum_of k p (do_reports printed os s).0 + part_of p (counted k c)) % 2 ^ 64
          ≡ part_of p (counted k (last_counters c os)) % 2 ^ 64)
        fresh sums in
    omega (arith, moved, nothing)
