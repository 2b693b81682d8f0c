-- ===== src/Config/Check.antt =====
-- The check of a configuration, `conf_validate` of src/configure.c: what it makes of parameters that
-- are left at 0, and which combinations of modules and parameters it refuses. A block that is not in
-- the configuration file is a null pointer.
pub mod Consistent
pub mod Powers
use mmt_probe.Base.{
  ℕ, zero, suc, ◌+◌, ◌-◌, ◌*◌, ◌/◌, ◌%◌, ◌^◌, Bool, true, false, not, ◌&&◌, ◌||◌, Option, none,
  some, ltb, ◌==◌, if◌then◌else◌,
}
use mmt_probe.Base.Words.{and_bits}

-- the modules that the probe is compiled with
pub record Modules : Type 0 where
  pub forward_packet : Bool
  pub security : Bool
  pub tcp_reassembly : Bool
  pub ftp_reconstruct : Bool
  pub http_reconstruct : Bool
  pub dpdk_capture : Bool

pub record ForwardPacket : Type 0 where
  pub is_enable : Bool
  pub nb_copies : ℕ

pub record MicroFlows : Type 0 where
  pub byte_threshold : ℕ
  pub report_bytes_count : ℕ

pub record SessionReport : Type 0 where
  pub is_enable : Bool
  pub is_ftp : Bool
  pub is_http : Bool
  pub is_ssl : Bool
  pub is_rtp : Bool
  pub is_gtp : Bool

-- What the check reads of `probe_conf_t`. Of `security`, `behaviour` and the two reconstructions it
-- is `is_enable`, of `pcap_dump` the frequency, and of the input whether it is OFFLINE_ANALYSIS.
pub record ProbeConf : Type 0 where
  pub is_enable_ip_defragmentation : Bool
  pub is_enable_tcp_reassembly : Bool
  pub forward_packet : Option ForwardPacket
  pub security : Option Bool
  pub behaviour : Option Bool
  pub microflow : Option MicroFlows
  pub session : Option SessionReport
  pub pcap_dump : Option ℕ
  pub ftp : Option Bool
  pub http : Option Bool
  pub offline : Option Bool
  pub thread_count : ℕ
  pub thread_queue_packet_threshold : ℕ

-- The end of some tests: how much they add to `ret`; or the process is aborted by an `ASSERT`, or it
-- reads through a null pointer.
pub data Verdict : Type 0 where
  counts : ℕ → Verdict
  aborts faults : Verdict

-- one test after another
unfoldable pub and_then : Verdict → Verdict → Verdict
and_then (counts n) (counts m) = counts (n + m)
and_then (counts n) aborts = aborts
and_then (counts n) faults = faults
and_then aborts v = aborts
and_then faults v = faults

-- a test with an entry in the log and `ret ++`
abbrev pub refuse_if : Bool → Verdict
refuse_if b = counts (if b then 1 else 0)

abbrev pub assert : Bool → Verdict
assert b = if b then counts 0 else aborts

-- a read of `is_enable`, or of another Boolean, through a pointer
unfoldable pub deref : Option Bool → (Bool → Verdict) → Verdict
deref none k = faults
deref (some b) k = k b

-- `x && !(x & (x-1))`, where `x` is a `size_t`
unfoldable pub is_power_of_two : ℕ → Bool
is_power_of_two x = not (x == 0) && and_bits 64 x (x - 1) == 0

unfoldable pub check_copies : Modules → Option Bool → ForwardPacket → Verdict
unfolding deref
check_copies m security f =
    if f.is_enable
    then (if m.security
        then deref security (λ is_enable_security.
          and_then (assert is_enable_security) (assert (not (f.nb_copies == 0))))
        else aborts)
    else counts 0

unfoldable pub check_forward : Modules → ProbeConf → Option ForwardPacket → Verdict
check_forward m c none = if m.forward_packet then faults else counts 0
check_forward m c (some f) = if m.forward_packet then check_copies m c.security f else counts 0

unfoldable pub check_session : Option SessionReport → Verdict
check_session none = faults
check_session (some s) =
    refuse_if (s.is_enable && s.is_gtp && (s.is_http || s.is_ssl || s.is_ftp || s.is_rtp))

unfoldable pub session_enabled : Option SessionReport → Option Bool
session_enabled none = none
session_enabled (some s) = some s.is_enable

unfoldable pub check_behaviour : Option SessionReport → Option Bool → Verdict
unfolding deref session_enabled
check_behaviour session behaviour = deref behaviour (λ is_enable.
    if is_enable
    then deref (session_enabled session) (λ enabled. refuse_if (not enabled))
    else counts 0)

unfoldable pub check_reassembly : Modules → ProbeConf → Verdict
check_reassembly m c =
    refuse_if (m.tcp_reassembly && not c.is_enable_ip_defragmentation && c.is_enable_tcp_reassembly)

-- The pointer is read only where TCP reassembly is off.
unfoldable pub check_reconstruction : Bool → ProbeConf → Option Bool → Verdict
unfolding deref
check_reconstruction compiled c reconstruct =
    if compiled && not c.is_enable_tcp_reassembly
    then deref reconstruct (λ is_enable. refuse_if is_enable)
    else counts 0

-- the tests of a probe that captures by DPDK
unfoldable pub check_online : ProbeConf → Verdict
unfolding deref
check_online c = and_then (deref c.offline (λ offline. refuse_if offline)) (
    and_then (refuse_if (c.thread_count == 0))
      (refuse_if (not (is_power_of_two c.thread_queue_packet_threshold))))

unfoldable pub check_dpdk : Modules → ProbeConf → Verdict
check_dpdk m c = if m.dpdk_capture then check_online c else counts 0

abbrev pub default_to : ℕ → ℕ → ℕ
default_to value n = if n == 0 then value else n

unfoldable pub default_microflow : Option MicroFlows → Option MicroFlows
default_microflow none = none
default_microflow (some f) = some (record {
  byte_threshold = default_to (2 ^ 31 - 1) f.byte_threshold;
  report_bytes_count = default_to (2 ^ 31 - 1) f.report_bytes_count;
})

unfoldable pub default_dump : Option ℕ → Option ℕ
default_dump none = none
default_dump (some frequency) = some (default_to 3600 frequency)

-- the two assignments
abbrev pub defaulted : ProbeConf → ProbeConf
defaulted c = record c {
  microflow = default_microflow c.microflow;
  pcap_dump = default_dump c.pcap_dump;
}

-- the tests behind the assignments, which read none of the fields assigned
abbrev pub check_reports : Modules → ProbeConf → Verdict
check_reports m c = and_then (check_session c.session) (
    and_then (check_behaviour c.session c.behaviour) (
      and_then (check_reassembly m c) (
        and_then (check_reconstruction m.ftp_reconstruct c c.ftp)
          (and_then (check_reconstruction m.http_reconstruct c c.http) (check_dpdk m c)))))

-- What `conf_validate` returns, and the configuration that it leaves where it returns.
unfoldable pub conf_validate : Modules → ProbeConf → Verdict × ProbeConf
conf_validate m c =
    let d = defaulted c in (and_then (check_forward m c c.forward_packet) (check_reports m d), d)

-- `main` goes on only where `conf_validate` returns 0.
abbrev pub accepted : Verdict → Bool
accepted (counts n) = n == 0
accepted aborts = false
accepted faults = false
