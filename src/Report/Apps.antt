-- ===== src/Report/Apps.antt =====
-- What a session keeps for its application, behind the statistics of its IP session: the `apps` and
-- `app_type` of src/modules/dpi/report/session_report.h, and the callbacks of session_report_web.c,
-- session_report_ssl.c, session_report_rtp.c and session_report_gtp.c beside it. The pointers of
-- `apps` are one union: what stands there is the object that its pointer was made for, and an
-- access as another object is `none`, as is an exit of the program.
pub mod Text
pub mod Teids
use mmt_probe.Base.{
  ℕ, zero, suc, ◌+◌, ◌-◌, ◌*◌, ◌%◌, ◌^◌, max, Bool, true, false, not, ◌||◌, ◌&&◌, List, [], ◌∷◌,
  ◌++◌, Option, none, some, length, take, map, ltb, ◌==◌, if◌then◌else◌, ◌>>=◌, replicate,
}
use mmt_probe.Base.Bytes.{Bytes, c_string}
use mmt_probe.Base.Words.{add32}
use mmt_probe.Report.Rtt.{Timeval}

-- what `dpi_copy_string_value` makes of a character
pub json_char : ℕ → ℕ
json_char c =
    if c == 8 || c == 12 || c == 10 || c == 13 || c == 9 || c == b'\\'
    then b'.'
    else if c == b'"'
    then b'\''
    else c

-- `dpi_copy_string_value` of dpi_tool.h: the string that the target holds. The value is NULL, or the
-- bytes from `ptr`, `len` of them; the target is not of size 0.
pub dpi_copy_string_value : ℕ → Option Bytes → Bytes
unfolding json_char
dpi_copy_string_value target_size none = []
dpi_copy_string_value target_size (some []) = []
dpi_copy_string_value target_size (some (c ∷ s)) =
    let size = if ltb (length (c ∷ s) + 1) target_size then length (c ∷ s) + 1 else target_size in
    c_string (map json_char (take (size - 1) (c ∷ s)))

abbrev pub zero_time : Timeval
zero_time = record { tv_sec = 0; tv_usec = 0 }

-- `session_web_stat_t`
pub record WebStat : Type 0 where
  pub first_request_time : Timeval
  pub request_time : Timeval
  pub response_time : Timeval
  pub xcdn_seen : Bool
  pub request_nb : ℕ
  pub transaction_indicator : ℕ
  pub mime_type : Bytes
  pub hostname : Bytes
  pub referer : Bytes
  pub method : Bytes
  pub uri : Bytes
  pub response : Bytes
  pub content_len : Bytes

-- `_reset_report`
abbrev pub reset_web : WebStat
reset_web = record {
  first_request_time = zero_time;
  request_time = zero_time;
  response_time = zero_time;
  xcdn_seen = false;
  request_nb = 0;
  transaction_indicator = 0;
  mime_type = [];
  hostname = [];
  referer = [];
  method = [];
  uri = [];
  response = [];
  content_len = [];
}

-- `session_rtp_stat_t`
pub record RtpStat : Type 0 where
  pub packets_nb : ℕ
  pub jitter : ℕ
  pub nb_order_error : ℕ
  pub nb_lost : ℕ
  pub nb_loss_bursts : ℕ

-- `_reset_rtp`
abbrev pub reset_rtp : RtpStat
reset_rtp = record {
  packets_nb = 0;
  jitter = 0;
  nb_order_error = 0;
  nb_lost = 0;
  nb_loss_bursts = 0;
}

-- `session_gtp_stat_t`; an address is `ip_string`'s text.
pub record GtpStat : Type 0 where
  pub teids : List ℕ
  pub ip_version : ℕ
  pub ip_src : Bytes
  pub ip_dst : Bytes

-- MAX_NB_TEID
abbrev pub max_teids : ℕ
max_teids = 6

-- zeroed memory
abbrev pub new_gtp : GtpStat
new_gtp = record { teids = replicate max_teids 0; ip_version = 0; ip_src = []; ip_dst = [] }

pub data AppType : Type 0 where
  app_ip app_web app_ssl app_rtp app_ftp app_gtp : AppType

abbrev pub same_app : AppType → AppType → Bool
same_app app_ip app_ip = true
same_app app_web app_web = true
same_app app_ssl app_ssl = true
same_app app_rtp app_rtp = true
same_app app_ftp app_ftp = true
same_app app_gtp app_gtp = true
same_app _ _ = false

-- The object of `session_ssl_stat_t` is its hostname.
pub data App : Type 0 where
  web : WebStat → App
  ssl : Bytes → App
  rtp : RtpStat → App
  gtp : GtpStat → App

pub record AppState : Type 0 where
  pub app_type : AppType
  pub apps : Option App
  pub content_class : ℕ

-- of a new session
abbrev pub no_app : AppState
no_app = record { app_type = app_ip; apps = none; content_class = 0 }

abbrev pub app_or : App → Option App → App
app_or new none = new
app_or new (some a) = a

-- `_get_packet_session` of the web and of RTP, where there is a session: `none` is the end of the
-- program by MY_MISTAKE or ABORT.
unfoldable pub get_packet_session : AppType → App → AppState → Option AppState
get_packet_session wanted new s =
    if same_app s.app_type app_ip || same_app s.app_type wanted
    then some (record s { app_type = wanted; apps = some (app_or new s.apps) })
    else none

-- an assignment through `apps.web`
unfoldable pub update_web : (WebStat → WebStat) → AppState → Option AppState
update_web f s = elim s.apps [
  | none ↦ none
  | some (web w) ↦ some (record s { apps = some (web (f w)) })
  | some (ssl h) ↦ none
  | some (rtp r) ↦ none
  | some (gtp g) ↦ none
]

-- one through `apps.rtp`
unfoldable pub update_rtp : (RtpStat → RtpStat) → AppState → Option AppState
update_rtp f s = elim s.apps [
  | none ↦ none
  | some (web w) ↦ none
  | some (ssl h) ↦ none
  | some (rtp r) ↦ some (record s { apps = some (rtp (f r)) })
  | some (gtp g) ↦ none
]

-- a callback that has its statistics by `_get_packet_session`
unfoldable pub on_web : (WebStat → WebStat) → AppState → Option AppState
unfolding get_packet_session update_web
on_web f s = do s' ← get_packet_session app_web (web reset_web) s; update_web f s'

unfoldable pub on_rtp : (RtpStat → RtpStat) → AppState → Option AppState
unfolding get_packet_session update_rtp
on_rtp f s = do s' ← get_packet_session app_rtp (rtp reset_rtp) s; update_rtp f s'

-- what `_web_method_handle` does behind the report of the last transaction
abbrev pub begin_request : Timeval → Option Bytes → WebStat → WebStat
begin_request ts val w =
    let request_nb = (w.request_nb + 1) % 256 in
    record w {
      request_nb = request_nb;
      transaction_indicator = 1;
      method = dpi_copy_string_value 10 val;
      request_time = ts;
      first_request_time = if request_nb == 1 then ts else w.first_request_time;
    }

-- `_web_response_handle`
abbrev pub web_response : Timeval → Option Bytes → WebStat → WebStat
web_response ts val w = record w {
  response_time = ts;
  transaction_indicator = 0;
  response = dpi_copy_string_value 20 val;
}

abbrev pub web_referer : Option Bytes → WebStat → WebStat
web_referer val w = record w { referer = dpi_copy_string_value 255 val }

abbrev pub web_uri : Option Bytes → WebStat → WebStat
web_uri val w = record w { uri = dpi_copy_string_value 1024 val }

abbrev pub web_content_len : Option Bytes → WebStat → WebStat
web_content_len val w = record w { content_len = dpi_copy_string_value 20 val }

abbrev pub is_empty : Bytes → Bool
is_empty [] = true
is_empty (c ∷ s) = false

-- `_web_host_handle`; HOST_NAME_MAX is 64.
abbrev pub web_host : Option Bytes → WebStat → WebStat
web_host val w =
    if is_empty w.hostname then record w { hostname = dpi_copy_string_value 64 val } else w

-- `_content_type_handle`
abbrev pub web_content_type : Option Bytes → WebStat → WebStat
web_content_type val w =
    if is_empty w.mime_type then record w { mime_type = dpi_copy_string_value 127 val } else w

-- `_web_xcdn_seen_handle`
abbrev pub web_xcdn_seen : Bool → WebStat → WebStat
web_xcdn_seen seen w = record w { xcdn_seen = seen }

-- the object that `_ssl_server_name_handle` has
abbrev pub ssl_session : AppState → AppState
ssl_session s = elim s.apps [
  | none ↦ record s { app_type = app_ssl; apps = some (ssl []) }
  | some a ↦ s
]

-- its copy of a name that is not empty
pub name_server : ℕ → Bytes → Option App → AppState → Option AppState
name_server flags_class hostname (some (ssl _)) s =
    some (record s { apps = some (ssl hostname); content_class = flags_class })
name_server flags_class hostname _ s = none

-- `_ssl_server_name_handle`. `flags_class` is the class that the library makes of the content flags.
pub ssl_server_name : ℕ → Option Bytes → AppState → Option AppState
unfolding name_server
ssl_server_name flags_class val s =
    if same_app s.app_type app_ip || same_app s.app_type app_ssl
    then elim val [
      | none ↦ some (ssl_session s)
      | some [] ↦ some (ssl_session s)
      | some (c ∷ v) ↦
          name_server flags_class (dpi_copy_string_value 64 (some (c ∷ v))) (ssl_session s).apps
            (ssl_session s)
    ]
    else none

-- The callbacks of RTP; a counter is `uint32_t`, and a value `none` where the attribute has no data.
abbrev pub rtp_version : RtpStat → RtpStat
rtp_version r = record r { packets_nb = add32 r.packets_nb 1 }

abbrev pub rtp_jitter : Option ℕ → RtpStat → RtpStat
rtp_jitter none r = r
rtp_jitter (some jitter) r = record r { jitter = if ltb r.jitter jitter then jitter else r.jitter }

abbrev pub rtp_loss : Option ℕ → RtpStat → RtpStat
rtp_loss none r = r
rtp_loss (some loss) r = record r { nb_lost = add32 r.nb_lost loss }

abbrev pub rtp_error_order : Option ℕ → RtpStat → RtpStat
rtp_error_order none r = r
rtp_error_order (some order_error) r = record r {
  nb_order_error = add32 r.nb_order_error order_error;
}

abbrev pub rtp_burst_loss : Option ℕ → RtpStat → RtpStat
rtp_burst_loss none r = r
rtp_burst_loss (some burst_loss) r = record r { nb_loss_bursts = add32 r.nb_loss_bursts 1 }

-- the loop of `_gtp_update_teid` over the entries: the array, and whether it broke out of the loop
pub put_teid : ℕ → List ℕ → List ℕ × Bool
put_teid teid [] = ([], false)
put_teid teid (t ∷ ts) =
    let rest = put_teid teid ts in
    if t == teid then (t ∷ ts, true) else if t == 0 then (teid ∷ ts, true) else (t ∷ rest.0, rest.1)

-- `_gtp_update_teid`: with the object, whether the warning is written.
pub gtp_update_teid : Option ℕ → GtpStat → GtpStat × Bool
gtp_update_teid none g = (g, false)
gtp_update_teid (some teid) g =
    let (teids, found) = put_teid teid g.teids in (record g { teids = teids }, not found)

-- `_gtp_update_ip`: the addresses of the first IP in the packet, of version 4 or 6
pub gtp_update_ip : ℕ × Bytes × Bytes → GtpStat → GtpStat
gtp_update_ip (version, src, dst) g =
    if g.ip_version == 0 then record g { ip_version = version; ip_src = src; ip_dst = dst } else g

-- `_get_gtp_session_data`, where there is a session and data is made if there is none: it looks at the
-- union only.
abbrev pub get_gtp_session_data : AppState → AppState
get_gtp_session_data s = elim s.apps [
  | none ↦ record s { app_type = app_gtp; apps = some (gtp new_gtp) }
  | some a ↦ s
]

pub update_gtp : ℕ × Bytes × Bytes → Option ℕ → Option App → AppState → Option AppState
unfolding gtp_update_ip gtp_update_teid
update_gtp ip teid (some (gtp g)) s =
    some (record s { apps = some (gtp (gtp_update_teid teid (gtp_update_ip ip g)).0) })
update_gtp ip teid _ s = none

-- `_gtp_ip_src_handle`, of a session that is based on the IP after GTP
pub gtp_ip_src : ℕ × Bytes × Bytes → Option ℕ → AppState → Option AppState
unfolding update_gtp
gtp_ip_src ip teid s = update_gtp ip teid (get_gtp_session_data s).apps (get_gtp_session_data s)
