-- ===== src/Report/Session/Latency.antt =====
-- The three times in the reports of a session, src/modules/dpi/report/session_report.c, over a list
-- of calls.
use mmt_probe.Base.{
  ◌⊎◌, false, ℕ, ◌+◌, ◌%◌, ◌^◌, ◌≡◌, refl, true, not, ◌&&◌, List, [], ◌∷◌, ◌==◌, Bool-cases, inl,
  inr, arith,
}
use mmt_probe.Report.Apps.{AppState}
use mmt_probe.Report.Session.{
  SessionStat, Observed, Report, Times, is_zero_timestamp, is_after, u_second, total_of, times_of,
  mark_times, remember, report_of, after_report, print_ip_session_report,
}
use mmt_probe.Report.Session.Figures.{do_reports}

pub data Which : Type 0 where
  handshake app_response data_transfer : Which

abbrev pub time_in : Which → Times → ℕ
time_in handshake t = t.handshake_time
time_in app_response t = t.app_response_time
time_in data_transfer t = t.data_transfer_time

abbrev pub times_sum : Which → List Report → ℕ
times_sum w [] = 0
times_sum w (r ∷ rs) = time_in w r.times + times_sum w rs

-- A time is above 0 in one report at most.
abbrev pub Once : Which → List Report → Type 0
Once w [] = Unit {0}
Once w (r ∷ rs) = ((time_in w r.times ≡ 0) × Once w rs) ⊎ (times_sum w rs ≡ 0)

-- the moment up to which the transfer has been reported
abbrev pub transferred : SessionStat → ℕ
transferred s = u_second s.latest_tcp_data_pkt_ts

step_transfer :
    (o : Observed) (s : SessionStat)
    → ((times_of o s).data_transfer_time + transferred s) % 2 ^ 64 ≡ transferred (mark_times o s)
unfolding times_of mark_times
step_transfer o s =
    elim (Bool-cases (
      not (is_zero_timestamp s.tcp_established_ts)
      && not (is_zero_timestamp s.latest_tcp_data_pkt_ts)
      && is_after s.latest_tcp_data_pkt_ts o.last_activity_time)) [
        | inl e ↦ rw e (omega arith)
        | inr e ↦ rw e (omega arith)
      ]

step_handshake :
    (o : Observed) (s : SessionStat)
    → s.is_printed_handshake_time ≡ true
    → ((times_of o s).handshake_time ≡ 0) × ((mark_times o s).is_printed_handshake_time ≡ true)
unfolding times_of mark_times
step_handshake o s h = ground arith

step_response :
    (o : Observed) (s : SessionStat)
    → s.is_printed_app_response_time ≡ true
    → ((times_of o s).app_response_time ≡ 0)
      × ((mark_times o s).is_printed_app_response_time ≡ true)
unfolding times_of mark_times
step_response o s h = ground arith

-- What is printed as a time is the time that was measured, and it is then marked as printed.
first_handshake :
    (o : Observed) (s : SessionStat)
    → ((times_of o s).handshake_time ≡ 0)
      ⊎ (((times_of o s).handshake_time ≡ u_second o.session_rtt)
          × ((mark_times o s).is_printed_handshake_time ≡ true))
unfolding times_of mark_times
first_handshake o s = elim (Bool-cases (is_zero_timestamp s.tcp_established_ts)) [
  | inl e ↦ inl (rw e refl)
  | inr e ↦ elim (Bool-cases s.is_printed_handshake_time) [
    | inl k ↦ inl (rw (e, k) refl)
    | inr k ↦ inr (rw (e, k) refl, rw e refl)
  ]
]

first_response :
    (o : Observed) (s : SessionStat)
    → ((times_of o s).app_response_time ≡ 0)
      ⊎ ((mark_times o s).is_printed_app_response_time ≡ true)
unfolding times_of mark_times
first_response o s = elim (Bool-cases (is_zero_timestamp s.tcp_established_ts)) [
  | inl e ↦ inl (rw e refl)
  | inr e ↦ elim (Bool-cases (is_zero_timestamp s.latest_tcp_data_pkt_ts)) [
    | inl k ↦ inl (rw (e, k) refl)
    | inr k ↦ inr (rw (e, k) refl)
  ]
]

module _ (printed : AppState → AppState) where
  do_reports-transfer :
      (os : List Observed) (s : SessionStat)
      → (times_sum data_transfer (do_reports printed os s).0 + transferred s) % 2 ^ 64
        ≡ transferred (do_reports printed os s).1 % 2 ^ 64
  unfolding print_ip_session_report report_of after_report remember
  do_reports-transfer [] s = omega arith
  do_reports-transfer (o ∷ os) s =
      elim (Bool-cases (total_of o.counters.packets == total_of s.packets)) [
        | inl e ↦ rw e (do_reports-transfer os s)
        | inr e ↦
            let rest = do_reports-transfer os (after_report printed o s) in
            let one = step_transfer o s in rw e (omega (arith, rest, one))
      ]

  do_reports-handshake :
      (os : List Observed) (s : SessionStat)
      → s.is_printed_handshake_time ≡ true
      → times_sum handshake (do_reports printed os s).0 ≡ 0
  unfolding print_ip_session_report report_of after_report remember
  do_reports-handshake [] s h = refl
  do_reports-handshake (o ∷ os) s h =
      elim (Bool-cases (total_of o.counters.packets == total_of s.packets)) [
        | inl e ↦ rw e (do_reports-handshake os s h)
        | inr e ↦
            let (one, still) = step_handshake o s h in
            let rest = do_reports-handshake os (after_report printed o s) still in
            rw e (omega (arith, rest, one))
      ]

  do_reports-response :
      (os : List Observed) (s : SessionStat)
      → s.is_printed_app_response_time ≡ true
      → times_sum app_response (do_reports printed os s).0 ≡ 0
  unfolding print_ip_session_report report_of after_report remember
  do_reports-response [] s h = refl
  do_reports-response (o ∷ os) s h =
      elim (Bool-cases (total_of o.counters.packets == total_of s.packets)) [
        | inl e ↦ rw e (do_reports-response os s h)
        | inr e ↦
            let (one, still) = step_response o s h in
            let rest = do_reports-response os (after_report printed o s) still in
            rw e (omega (arith, rest, one))
      ]

  do_reports-handshake-Once :
      (os : List Observed) (s : SessionStat) → Once handshake (do_reports printed os s).0
  unfolding print_ip_session_report report_of after_report remember
  do_reports-handshake-Once [] s = tt
  do_reports-handshake-Once (o ∷ os) s =
      elim (Bool-cases (total_of o.counters.packets == total_of s.packets)) [
        | inl e ↦ rw e (do_reports-handshake-Once os s)
        | inr e ↦ rw e (elim (first_handshake o s) [
          | inl z ↦ inl (z, do_reports-handshake-Once os (after_report printed o s))
          | inr (v, k) ↦ inr (do_reports-handshake os (after_report printed o s) k)
        ])
      ]

  do_reports-response-Once :
      (os : List Observed) (s : SessionStat) → Once app_response (do_reports printed os s).0
  unfolding print_ip_session_report report_of after_report remember
  do_reports-response-Once [] s = tt
  do_reports-response-Once (o ∷ os) s =
      elim (Bool-cases (total_of o.counters.packets == total_of s.packets)) [
        | inl e ↦ rw e (do_reports-response-Once os s)
        | inr e ↦ rw e (elim (first_response o s) [
          | inl z ↦ inl (z, do_reports-response-Once os (after_report printed o s))
          | inr k ↦ inr (do_reports-response os (after_report printed o s) k)
        ])
      ]

  -- Whatever reports are made of a session: the data transfer times in them add up, modulo 2^64, to the
  -- time that the moment of the latest data packet has moved on by; the handshake time is above 0 in
  -- one of them at most, and in none if it has been printed before; and the same holds of the response
  -- time of the application.
  pub do_reports-times :
      (os : List Observed) (s : SessionStat)
      → ((times_sum data_transfer (do_reports printed os s).0 + transferred s) % 2 ^ 64
          ≡ transferred (do_reports printed os s).1 % 2 ^ 64)
        × ((s.is_printed_handshake_time ≡ false)
            ⊎ (times_sum handshake (do_reports printed os s).0 ≡ 0))
        × ((s.is_printed_app_response_time ≡ false)
            ⊎ (times_sum app_response (do_reports printed os s).0 ≡ 0))
        × Once handshake (do_reports printed os s).0
        × Once app_response (do_reports printed os s).0
  do_reports-times os s = (
    do_reports-transfer os s,
    elim (Bool-cases s.is_printed_handshake_time) [
      | inl e ↦ inr (do_reports-handshake os s e)
      | inr e ↦ inl e
    ],
    elim (Bool-cases s.is_printed_app_response_time) [
      | inl e ↦ inr (do_reports-response os s e)
      | inr e ↦ inl e
    ],
    do_reports-handshake-Once os s,
    do_reports-response-Once os s,
  )
