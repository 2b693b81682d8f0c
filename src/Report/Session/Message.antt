-- ===== src/Report/Session/Message.antt =====
-- The text of a session's report, `_print_ip_session_report` of
-- src/modules/dpi/report/session_report.c with `dpi_proto_hierarchy_ids_to_str` of dpi_tool.h and the
-- `print_..._report` of session_report_web.c, session_report_ssl.c, session_report_rtp.c and
-- session_report_gtp.c; and its way to the output. The memory of each array is an argument, as is
-- the text that `snprintf` makes of the floating-point numbers of RTP.
pub mod Columns
pub mod Joined
use mmt_probe.Base.{
  ℕ, zero, suc, ◌+◌, ◌-◌, ◌%◌, ◌^◌, Bool, true, false, not, ◌&&◌, List, [], ◌∷◌, ◌++◌, Option, none,
  some, length, get_or, take, drop, ltb, leb, ◌==◌, if◌then◌else◌, ◌>>=◌,
}
use mmt_probe.Base.Bytes.{Bytes, codes, c_string}
use mmt_probe.Base.Words.{sub64}
use mmt_probe.Text.Number.{append_number}
use mmt_probe.Text.Builder.{
  Element, arr, str, int, chr, time, mac, put, append_char, string_builder,
  string_builder_with_separator,
}
use mmt_probe.Report.Rtt.{Timeval, Direction, uplink, downlink, u_second_diff}
use mmt_probe.Report.Apps.{
  WebStat, RtpStat, GtpStat, reset_rtp, zero_time, AppType, app_ip, app_web, app_ssl, app_rtp,
  app_ftp, app_gtp, same_app, App, web, ssl, rtp, gtp, AppState,
}
use mmt_probe.Report.Session.{
  FlowStat, at, RttStat, SessionStat, Observed, Report, print_ip_session_report,
}
use mmt_probe.Report.Session.RoundTrips.{div}
use mmt_probe.Config.Channels.{Channels}
use mmt_probe.Output.{Output, Delivered, Written, max_message, output_write_report}
use mmt_probe.Output.File.{Action, FileOutput, file_output_write}

-- the loop of `dpi_proto_hierarchy_ids_to_str`: `offset` and `dest`
unfoldable pub append_ids : ℕ → List ℕ → ℕ × Bytes → ℕ × Bytes
append_ids max_length [] s = s
append_ids max_length (id ∷ ids) (offset, dest) =
    let (a, m) = append_char (drop offset dest) (max_length - offset) b'.' in
    let dest' = take offset dest ++ m in
    let (b, m') = append_number (drop (offset + a) dest') (max_length - (offset + a)) id in
    append_ids max_length ids (offset + a + b, take (offset + a) dest' ++ m')

-- the identifiers behind the first one, which is not printed
unfoldable pub append_path : ℕ → List ℕ → Bytes → ℕ × Bytes
append_path max_length [] dest = (0, dest)
append_path max_length (id ∷ ids) dest =
    append_ids max_length ids (append_number dest max_length id)

-- What is read from `proto_path[1]` on; of a hierarchy with one protocol, `behind` stands there.
abbrev pub printed_ids : ℕ → List ℕ → List ℕ
printed_ids behind [] = []
printed_ids behind (id ∷ []) = behind ∷ []
printed_ids behind (id ∷ next ∷ ids) = next ∷ ids

-- `dpi_proto_hierarchy_ids_to_str` into an array of 128 bytes
unfoldable pub path_text : ℕ → Bytes → List ℕ → Bytes
unfolding append_ids append_path
path_text behind dest path =
    let (offset, written) = append_path 128 (printed_ids behind path) dest in
    c_string (put offset (0 ∷ []) written)

-- what is used of `dpi_context_t`, and what the library leaves in `proto_path[1]` of a hierarchy with
-- one protocol
pub record Context : Type 0 where
  pub behind_path : ℕ
  pub stat_periods_index : ℕ
  pub worker_index : ℕ

abbrev pub last_of : List ℕ → ℕ
last_of path = get_or path (length path - 1) 0

abbrev pub number_of_app : AppType → ℕ
number_of_app app_ip = 0
number_of_app app_web = 1
number_of_app app_ssl = 2
number_of_app app_rtp = 3
number_of_app app_ftp = 4
number_of_app app_gtp = 5

-- the arguments of the macro; `ul` and `dl` are the texts of the two paths.
abbrev pub report_elements : Context → Bytes → Bytes → Report → List Element
report_elements context ul dl r =
    let o = r.observed in
    let s = r.stat in
    let rtt = s.rtt in
    let proto_id = last_of o.proto_path in
    int context.stat_periods_index
    ∷ int proto_id
    ∷ str ul
    ∷ str dl
    ∷ int o.active_session_count
    ∷ int r.volumes.total
    ∷ int r.payload.total
    ∷ int r.packets.total
    ∷ int r.volumes.up
    ∷ int r.payload.up
    ∷ int r.packets.up
    ∷ int r.volumes.down
    ∷ int r.payload.down
    ∷ int r.packets.down
    ∷ time o.init_time
    ∷ str s.ip_src
    ∷ str s.ip_dst
    ∷ mac s.mac_src
    ∷ mac s.mac_dst
    ∷ int o.session_id
    ∷ int s.port_dst
    ∷ int s.port_src
    ∷ int context.worker_index
    ∷ int r.times.handshake_time
    ∷ int r.times.app_response_time
    ∷ int r.times.data_transfer_time
    ∷ int rtt.min_of.upload
    ∷ int rtt.min_of.download
    ∷ int rtt.max_of.upload
    ∷ int rtt.max_of.download
    ∷ int (div rtt.sum.upload rtt.counter.upload)
    ∷ int (div rtt.sum.download rtt.counter.download)
    ∷ int s.retransmission.upload
    ∷ int s.retransmission.download
    ∷ int (number_of_app s.app.app_type)
    ∷ int o.application_class
    ∷ int s.app.content_class
    ∷ []

-- "0: CDN not detected", 1: by the header X-CDN, 2: by the content flags
abbrev pub cdn_flag : Bool → WebStat → ℕ
cdn_flag has_cdn w = if w.xcdn_seen then 1 else if has_cdn then 2 else 0

-- a time between two moments that have been seen, a negative one as 0
abbrev pub interval : WebStat → Timeval → ℕ
interval w start =
    let usec = u_second_diff w.response_time start in
    if not (w.response_time.tv_sec == 0) && not (w.request_time.tv_sec == 0)
    then (if ltb usec (2 ^ 63) then usec else 0)
    else 0

abbrev pub web_elements : Bool → WebStat → List Element
web_elements has_cdn w =
    int (interval w w.request_time)
    ∷ int w.request_nb
    ∷ int (interval w w.first_request_time)
    ∷ str w.hostname
    ∷ str w.mime_type
    ∷ str w.referer
    ∷ int (cdn_flag has_cdn w)
    ∷ str w.uri
    ∷ str w.method
    ∷ str w.response
    ∷ str w.content_len
    ∷ int w.transaction_indicator
    ∷ []

-- the loop of `print_gtp_report` over the tunnels up to the first 0
pub append_teids : ℕ → Bool → List ℕ → ℕ × Bytes → ℕ × Bytes
append_teids message_size has_teid [] s = s
append_teids message_size has_teid (teid ∷ teids) (ret, message) =
    let comma : ℕ × Bytes =
      if has_teid then (ret + 1, put ret (b',' ∷ []) message) else (ret, message) in
    let (n, m) = append_number (drop comma.0 comma.1) (message_size - comma.0) teid in
    let rest = append_teids message_size true teids (comma.0 + n, take comma.0 comma.1 ++ m) in
    if teid == 0 then (ret, message) else rest

abbrev pub gtp_elements : GtpStat → List Element
gtp_elements g = str g.ip_src ∷ chr b',' ∷ str g.ip_dst ∷ chr b',' ∷ chr b'[' ∷ []

pub print_gtp_report : Bytes → ℕ → GtpStat → Option (ℕ × Bytes)
unfolding append_teids
print_gtp_report message message_size g = do
  s ← string_builder 0 message message_size (gtp_elements g)
  let (ret, m) = append_teids message_size false g.teids s
  some (ret + 2, put ret (b']' ∷ 0 ∷ []) m)

-- `snprintf`, of a text that it makes
abbrev pub snprintf : Bytes → ℕ → Bytes → ℕ × Bytes
snprintf message message_size text =
    if message_size == 0
    then (length text, message)
    else (length text, put 0 (take (message_size - 1) text ++ 0 ∷ []) message)

-- The switch on `app_type`, with the `print_..._report` that it calls: the number of bytes, and the
-- memory; `none` is an access to the object as another one.
pub print_app : (RtpStat → Bytes) → Bytes → ℕ → Bool → AppType → Option App → Option (ℕ × Bytes)
unfolding print_gtp_report
print_app rtp_text message message_size has_cdn app_type none = some (0, message)
print_app rtp_text message message_size has_cdn app_web (some (web w)) =
    string_builder_with_separator 0 message message_size (b',' ∷ []) (web_elements has_cdn w)
print_app rtp_text message message_size has_cdn app_ssl (some (ssl hostname)) =
    string_builder 0 message message_size
      (str hostname ∷ chr b',' ∷ int (if has_cdn then 2 else 0) ∷ [])
print_app rtp_text message message_size has_cdn app_rtp (some (rtp r)) =
    some (snprintf message message_size (rtp_text r))
print_app rtp_text message message_size has_cdn app_gtp (some (gtp g)) =
    print_gtp_report message message_size g
print_app rtp_text message message_size has_cdn _ _ = none

-- what these functions assign to the statistics of the application
pub after_print : AppState → AppState
after_print s = elim s.apps [
  | none ↦ s
  | some (web w) ↦
      if same_app s.app_type app_web
      then record s {
        apps = some (
            web (record w {
              response_time = zero_time;
              transaction_indicator = (w.transaction_indicator + 1) % 256;
            }));
      }
      else s
  | some (ssl h) ↦ s
  | some (rtp r) ↦
      if same_app s.app_type app_rtp then record s { apps = some (rtp reset_rtp) } else s
  | some (gtp g) ↦ s
]

-- the part behind the basic one: a comma, and what the application adds; `none` also where a byte is
-- written behind the array.
end_message : ℕ × Bytes → Option Bytes
end_message (valid, message) =
    if ltb valid max_message then some (c_string (put valid (0 ∷ []) message)) else none

pub append_app : (RtpStat → Bytes) → Bool → AppState → ℕ × Bytes → Option Bytes
unfolding end_message
append_app rtp_text has_cdn s (valid, message) =
    let separated = put valid (b',' ∷ []) message in
    if same_app s.app_type app_ip
    then some (c_string message)
    else (if ltb valid max_message
        then (do
          (n, part) ←
              print_app rtp_text (drop (valid + 1) separated) (max_message - (valid + 1)) has_cdn
                s.app_type s.apps
          end_message (valid + 1 + n, take (valid + 1) separated ++ part))
        else none)

-- `message`; `path` is the memory of the arrays of the paths.
pub report_message : (RtpStat → Bytes) → Context → Bytes → Bytes → Report → Option Bytes
unfolding path_text
report_message rtp_text context path memory r = do
  basic ← string_builder_with_separator 0 memory max_message (b',' ∷ []) (
      report_elements context (path_text context.behind_path path r.observed.path_ul)
        (path_text context.behind_path path r.observed.path_dl) r)
  append_app rtp_text r.observed.has_cdn r.stat.app basic

-- the arguments of `_write_behaviour_report`; BEHAVIOUR_REPORT_ID is 101.
abbrev pub behaviour_elements : ℕ → Bytes → Report → List Element
behaviour_elements probe_id input_src r =
    int 101
    ∷ int probe_id
    ∷ str input_src
    ∷ time r.observed.last_activity_time
    ∷ int (last_of r.observed.proto_path)
    ∷ int r.volumes.up
    ∷ int r.volumes.down
    ∷ str r.stat.ip_src
    ∷ str r.stat.ip_dst
    ∷ []

pub write_behaviour_report :
    Bytes → ℕ → Bytes → Report → Option FileOutput → Option (List Action × Option FileOutput)
write_behaviour_report memory probe_id input_src r none = some ([], none)
write_behaviour_report memory probe_id input_src r (some f) = do
  (valid, message) ←
      string_builder_with_separator 0 memory max_message (b',' ∷ [])
        (behaviour_elements probe_id input_src r)
  let (actions, f') = file_output_write f (c_string message)
  some (actions, some f')

-- SESSION_REPORT_TYPE
abbrev pub session_report_type : ℕ
session_report_type = 100

-- the statistics of the session, what has been written, and the calls to the file of the behaviour
pub record Done {ℓ} (Document : Type ℓ) : Type ℓ where
  pub stat : SessionStat
  pub written : Written Document
  pub behaviour_calls : List Action
  pub behaviour_output : Option FileOutput

module _ {ℓ} {Document : Type ℓ} (parse : Bytes → Option Document) (rtp_text : RtpStat → Bytes)
    (path memory : Bytes) (answers : Delivered) (channels : Channels) where
  write_message :
      Context
      → Output Document
      → Option FileOutput
      → Option Report
      → SessionStat
      → Option (Done Document)
  unfolding write_behaviour_report
  write_message context output behaviour none s = some (record {
    stat = s;
    written = record { ret = 0; sent = []; output = output };
    behaviour_calls = [];
    behaviour_output = behaviour;
  })
  write_message context output behaviour (some r) s = do
    message ← report_message rtp_text context path memory r
    w ←
        output_write_report parse memory answers output channels session_report_type
          r.observed.last_activity_time (some message)
    (calls, behaviour') ← write_behaviour_report memory output.probe_id output.input_src r behaviour
    some (record { stat = s; written = w; behaviour_calls = calls; behaviour_output = behaviour' })

  -- `session_report_do_report`
  pub do_report :
      Context
      → Output Document
      → Option FileOutput
      → Observed
      → SessionStat
      → Option (Done Document)
  unfolding write_message
  do_report context output behaviour o s =
      let (report, s') = print_ip_session_report after_print o s in
      write_message context output behaviour report s'
