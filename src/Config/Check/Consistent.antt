-- ===== src/Config/Check/Consistent.antt =====
-- Which configurations `conf_validate` of src/configure.c accepts.
use mmt_probe.Base.{
  ◌^◌, ◌<◌, ◌≡◌, ◌≢◌, ◌↔◌, refl, Bool, true, false, not, ◌&&◌, Option, none, some, ◌==◌, Bool-cases,
  inl, inr, arith,
}
use mmt_probe.Config.Check.{
  Modules, ForwardPacket, SessionReport, ProbeConf, Verdict, counts, aborts, faults, and_then,
  deref, is_power_of_two, check_copies, check_forward, check_session, session_enabled,
  check_behaviour, check_reassembly, check_reconstruction, check_online, check_dpdk, defaulted,
  check_reports, refuse_if, conf_validate, accepted,
}
use mmt_probe.Config.Check.Powers.{IsPower, is_power_of_two_iff}

-- Copies of packets are sent only by a probe with the security module, enabled.
abbrev pub AllowsForward : Modules → ProbeConf → Option ForwardPacket → Type 0
AllowsForward m c none = m.forward_packet ≡ false
AllowsForward m c (some f) =
    m.forward_packet ≡ true
    → f.is_enable ≡ true
    → (m.security ≡ true) × (c.security ≡ some true) × (f.nb_copies ≢ 0)

-- Session reports of GTP are reports of nothing else.
abbrev pub AllowsSession : Option SessionReport → Type 0
AllowsSession none = ⊥
AllowsSession (some s) =
    s.is_enable ≡ true
    → s.is_gtp ≡ true
    → (s.is_http ≡ false) × (s.is_ssl ≡ false) × (s.is_ftp ≡ false) × (s.is_rtp ≡ false)

abbrev pub AllowsBehaviour : Option SessionReport → Option Bool → Type 0
AllowsBehaviour session none = ⊥
AllowsBehaviour session (some behaviour) = behaviour ≡ true → session_enabled session ≡ some true

abbrev pub AllowsReassembly : Modules → ProbeConf → Type 0
AllowsReassembly m c =
    m.tcp_reassembly ≡ true
    → c.is_enable_tcp_reassembly ≡ true
    → c.is_enable_ip_defragmentation ≡ true

abbrev pub AllowsReconstruction : Bool → ProbeConf → Option Bool → Type 0
AllowsReconstruction compiled c reconstruct =
    compiled ≡ true → c.is_enable_tcp_reassembly ≡ false → reconstruct ≡ some false

abbrev pub AllowsDpdk : Modules → ProbeConf → Type 0
AllowsDpdk m c =
    m.dpdk_capture ≡ true
    → (c.offline ≡ some false) × (c.thread_count ≢ 0) × IsPower 64 c.thread_queue_packet_threshold

-- What a configuration that the probe runs with keeps to, with the modules it is compiled with.
pub record IsConsistent (m : Modules) (c : ProbeConf) : Type 0 where
  pub forward : AllowsForward m c c.forward_packet
  pub session : AllowsSession c.session
  pub behaviour : AllowsBehaviour c.session c.behaviour
  pub reassembly : AllowsReassembly m c
  pub ftp : AllowsReconstruction m.ftp_reconstruct c c.ftp
  pub http : AllowsReconstruction m.http_reconstruct c c.http
  pub dpdk : AllowsDpdk m c

accepted-and_then : (v w : Verdict) → accepted (and_then v w) ≡ (accepted v && accepted w)
unfolding and_then
accepted-and_then (counts n) (counts k) = ground arith
accepted-and_then (counts n) aborts = ground arith
accepted-and_then (counts n) faults = ground arith
accepted-and_then aborts w = refl
accepted-and_then faults w = refl

copies_lem :
    (m : Modules) (security : Option Bool) (f : ForwardPacket)
    → (accepted (check_copies m security f) ≡ true)
      ↔ (f.is_enable ≡ true → (m.security ≡ true) × (security ≡ some true) × (f.nb_copies ≢ 0))
unfolding check_copies deref and_then
copies_lem m none f = ((λ h a. ground (arith, h)), (λ h. ground (arith, h)))
copies_lem m (some false) f = ((λ h a. ground (arith, h)), (λ h. ground (arith, h)))
copies_lem m (some true) f = ((λ h a. ground (arith, h)), (λ h. ground (arith, h)))

forward_lem :
    (m : Modules) (c : ProbeConf) (f : Option ForwardPacket)
    → (accepted (check_forward m c f) ≡ true) ↔ AllowsForward m c f
unfolding check_forward
forward_lem m c none = ((λ h. ground arith), (λ h. ground arith))
forward_lem m c (some f) =
    let l = copies_lem m c.security f in ((λ h a. l.0 (ground arith)), (λ h. ground (arith, h, l)))

session_lem : (s : Option SessionReport) → (accepted (check_session s) ≡ true) ↔ AllowsSession s
unfolding check_session
session_lem none = ((λ h. ground arith), (λ h. absurd h))
session_lem (some s) = ((λ h a b. ground (arith, h)), (λ h. ground (arith, h)))

behaviour_lem :
    (s : Option SessionReport) (b : Option Bool)
    → (accepted (check_behaviour s b) ≡ true) ↔ AllowsBehaviour s b
unfolding check_behaviour deref session_enabled
behaviour_lem s none = ((λ h. ground arith), (λ h. absurd h))
behaviour_lem none (some b) = ((λ h a. ground arith), (λ h. ground (arith, h)))
behaviour_lem (some s) (some b) = ((λ h a. ground arith), (λ h. ground (arith, h)))

reconstruction_lem :
    (compiled : Bool) (c : ProbeConf) (r : Option Bool)
    → (accepted (check_reconstruction compiled c r) ≡ true) ↔ AllowsReconstruction compiled c r
unfolding check_reconstruction deref
reconstruction_lem compiled c none = ((λ h a b. ground arith), (λ h. ground (arith, h)))
reconstruction_lem compiled c (some false) = ((λ h a b. refl), (λ h. ground arith))
reconstruction_lem compiled c (some true) = ((λ h a b. ground arith), (λ h. ground (arith, h)))

offline_lem :
    (r : Option Bool)
    → (accepted (deref r (λ offline. refuse_if offline)) ≡ true) ↔ (r ≡ some false)
unfolding deref
offline_lem none = ((λ h. ground arith), (λ h. ground arith))
offline_lem (some false) = ((λ h. refl), (λ h. refl))
offline_lem (some true) = ((λ h. ground arith), (λ h. ground arith))

reassembly_lem :
    (m : Modules) (c : ProbeConf) → (accepted (check_reassembly m c) ≡ true) ↔ AllowsReassembly m c
unfolding check_reassembly
reassembly_lem m c = ((λ h a b. ground (arith, h)), (λ h. ground (arith, h)))

both_lem :
    (v w : Verdict) → (accepted (and_then v w) ≡ true) ↔ ((accepted v ≡ true) × (accepted w ≡ true))
both_lem v w = let e = accepted-and_then v w in ((λ h. ground arith), (λ h. ground arith))

refuse_if_lem : (b : Bool) → (accepted (refuse_if b) ≡ true) ↔ (b ≡ false)
refuse_if_lem true = ((λ h. ground arith), (λ h. ground arith))
refuse_if_lem false = ((λ h. refl), (λ h. refl))

online_lem :
    (c : ProbeConf)
    → c.thread_queue_packet_threshold < 2 ^ 64
    → (accepted (check_online c) ≡ true) ↔ (
        (c.offline ≡ some false)
        × (c.thread_count ≢ 0)
        × IsPower 64 c.thread_queue_packet_threshold)
unfolding check_online
online_lem c small =
    let l = offline_lem c.offline in
    let p = is_power_of_two_iff c.thread_queue_packet_threshold small in
    let t = refuse_if_lem (c.thread_count == 0) in
    let q = refuse_if_lem (not (is_power_of_two c.thread_queue_packet_threshold)) in
    let inner =
      both_lem (refuse_if (c.thread_count == 0))
        (refuse_if (not (is_power_of_two c.thread_queue_packet_threshold))) in
    let outer = both_lem (deref c.offline (λ offline. refuse_if offline)) (
      and_then (refuse_if (c.thread_count == 0))
        (refuse_if (not (is_power_of_two c.thread_queue_packet_threshold)))) in
    (
      (λ h.
          let (a, b) = outer.0 h in
          let (d, e) = inner.0 b in
          let some_threads : (c.thread_count == 0) ≡ false = t.0 d in
          let power : not (is_power_of_two c.thread_queue_packet_threshold) ≡ false = q.0 e in
          (l.0 a, ground arith, p.0 (ground arith))),
      (λ (a, b, d).
          let power : is_power_of_two c.thread_queue_packet_threshold ≡ true = p.1 d in
          outer.1 (l.1 a, inner.1 (t.1 (ground arith), q.1 (ground arith)))),
    )

dpdk_lem :
    (m : Modules) (c : ProbeConf)
    → c.thread_queue_packet_threshold < 2 ^ 64
    → (accepted (check_dpdk m c) ≡ true) ↔ AllowsDpdk m c
unfolding check_dpdk
dpdk_lem m c small =
    let o = online_lem c small in
    (
      (λ h on. o.0 (ground arith)),
      (λ h. elim (Bool-cases m.dpdk_capture) [
        | inl on ↦ rw on (o.1 (h on))
        | inr off ↦ rw off refl
      ]),
    )

chain :
    {A B : Type 0} (v w : Verdict)
    → (accepted v ≡ true) ↔ A
    → (accepted w ≡ true) ↔ B
    → (accepted (and_then v w) ≡ true) ↔ (A × B)
chain v w a b =
    let l = both_lem v w in ((λ h. (a.0 (l.0 h).0, b.0 (l.0 h).1)), (λ (x, y). l.1 (a.1 x, b.1 y)))

reports_lem :
    (m : Modules) (c : ProbeConf)
    → c.thread_queue_packet_threshold < 2 ^ 64
    → (accepted (check_reports m c) ≡ true) ↔ (
        AllowsSession c.session
        × (AllowsBehaviour c.session c.behaviour
            × (AllowsReassembly m c
                × (AllowsReconstruction m.ftp_reconstruct c c.ftp
                    × (AllowsReconstruction m.http_reconstruct c c.http × AllowsDpdk m c)))))
reports_lem m c small = chain _ _ (session_lem c.session) (
    chain _ _ (behaviour_lem c.session c.behaviour) (
      chain _ _ (reassembly_lem m c) (
        chain _ _ (reconstruction_lem m.ftp_reconstruct c c.ftp)
          (chain _ _ (reconstruction_lem m.http_reconstruct c c.http) (dpdk_lem m c small)))))

-- `conf_validate` returns 0 exactly on a configuration that is consistent: the blocks that it reads
-- are there, copies of packets need the security module and at least one copy, reports of GTP exclude the others, behaviour
-- reports need session reports, reassembly needs defragmentation, reconstruction without reassembly
-- is disabled, and a capture by DPDK is online, on a thread at least and with queues of a power of
-- two.
pub conf_validate-IsConsistent :
    (m : Modules) (c : ProbeConf)
    → c.thread_queue_packet_threshold < 2 ^ 64
    → (accepted (conf_validate m c).0 ≡ true) ↔ IsConsistent m c
unfolding conf_validate
conf_validate-IsConsistent m c small =
    let d = defaulted c in
    let l1 = both_lem (check_forward m c c.forward_packet) (check_reports m d) in
    let l2 = reports_lem m d small in
    let f = forward_lem m c c.forward_packet in
    (
      (λ h.
          let (a, b) = l1.0 h in
          let (s, (b', (r, (ftp', (http', dpdk'))))) = l2.0 b in
          record {
            forward = f.0 a;
            session = s;
            behaviour = b';
            reassembly = r;
            ftp = ftp';
            http = http';
            dpdk = dpdk';
          }),
      (λ v. l1.1 (
        f.1 v.forward,
        l2.1 (v.session, (v.behaviour, (v.reassembly, (v.ftp, (v.http, v.dpdk))))),
      )),
    )
