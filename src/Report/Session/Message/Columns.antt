-- ===== src/Report/Session/Message/Columns.antt =====
-- What the text of a session's report has to be, column by column, for
-- src/modules/dpi/report/session_report.c and session_report_web.c; and the paths of protocols in it.
use mmt_probe.Base.{
  ℕ, ◌+◌, ◌-◌, ◌^◌, ◌≤◌, ◌<◌, ◌≡◌, refl, ap, sym, ◌∙◌, Bool, true, false, List, [], ◌∷◌, ◌++◌,
  append-nil, append_assoc, length, length-append, length-drop, drop, leb, arith, ◌==◌,
}
use mmt_probe.Base.Bytes.{Bytes, c_string, Lacks, Lacks-append}
use mmt_probe.Report.Apps.{WebStat}
use mmt_probe.Report.Session.{Report}
use mmt_probe.Report.Session.RoundTrips.{div}
use mmt_probe.Report.Session.Message.{
  Context, append_ids, append_path, path_text, printed_ids, number_of_app, last_of, interval,
  cdn_flag,
}
use mmt_probe.Text.Number.{append_number}
use mmt_probe.Text.Number.Correct.{decimal, append_number-decimal}
use mmt_probe.Text.Builder.{Element, int, str, time, mac, append_char}
use mmt_probe.Text.Builder.Strings.{decimal-Lacks}
use mmt_probe.Text.Builder.At.{at, cursor, put-at, take-at, drop-at, at-append, c_string-at}

-- The numbers of a path, with a point before each.
abbrev pub pointed : List ℕ → Bytes
pointed [] = []
pointed (id ∷ ids) = b'.' ∷ (decimal id ++ pointed ids)

-- The numbers with points between them.
abbrev pub dotted : List ℕ → Bytes
dotted [] = []
dotted (id ∷ ids) = decimal id ++ pointed ids

-- Numbers of 64 bits.
abbrev pub AllIds : List ℕ → Type 0
AllIds [] = Unit {0}
AllIds (id ∷ ids) = (id < 2 ^ 64) × AllIds ids

number-at :
    (n id : ℕ) (text dst : Bytes)
    → id < 2 ^ 64
    → n ≤ length dst
    → length text + length (decimal id) < n
    → append_number (drop (length text) dst) (n - length text) id
      ≡ (length (decimal id), at (decimal id) (drop (length text) dst))
number-at n id text dst small h k =
    let room : leb (length (decimal id)) (n - length text) ≡ true = ground arith in
    append_number-decimal (drop (length text) dst) (n - length text) id small
      (omega (arith, length-drop (length text) dst))
    ∙ rw room refl

char-at :
    (n : ℕ) (text dst : Bytes)
    → n ≤ length dst
    → length text < n
    → append_char (drop (length text) dst) (n - length text) b'.'
      ≡ (1, at (b'.' ∷ []) (drop (length text) dst))
unfolding append_char
char-at n text dst h k =
    let rest = drop (length text) dst in
    let room : ((n - length text) == 0) ≡ false = ground arith in
    rw room
      (ap (λ m. (1, m)) (put-at [] (b'.' ∷ []) rest (omega (arith, length-drop (length text) dst))))

append_ids-cursor :
    (n : ℕ) (ids : List ℕ) (text dst : Bytes)
    → n ≤ length dst
    → length text + length (pointed ids) < n
    → AllIds ids
    → append_ids n ids (cursor text dst) ≡ cursor (text ++ pointed ids) dst
unfolding append_ids
append_ids-cursor n [] text dst h k small = rw (append-nil text) refl
append_ids-cursor n (id ∷ ids) text dst h k (small, others) =
    let dot : Bytes = b'.' ∷ [] in
    let one : length text + 1 ≡ length (text ++ dot) = omega (arith, length-append text dot) in
    let digits = length-append (decimal id) (pointed ids) in
    let whole = length-append (text ++ dot) (decimal id) in
    rw
      (
        drop-at text dst,
        char-at n text dst h (omega arith),
        take-at text dst,
        at-append text dot dst,
        one,
        drop-at (text ++ dot) dst,
        number-at n id (text ++ dot) dst small h (omega (arith, one, digits)),
        take-at (text ++ dot) dst,
        at-append (text ++ dot) (decimal id) dst,
        sym whole,
        append_ids-cursor n ids ((text ++ dot) ++ decimal id) dst h
            (omega (arith, whole, one, digits)) others,
        append_assoc (text ++ dot) (decimal id) (pointed ids),
        append_assoc text dot (decimal id ++ pointed ids),
      )
      refl

append_path-cursor :
    (ids : List ℕ) (dst : Bytes)
    → 128 ≤ length dst
    → length (dotted ids) < 128
    → AllIds ids
    → append_path 128 ids dst ≡ cursor (dotted ids) dst
unfolding append_path
append_path-cursor [] dst h k small = refl
append_path-cursor (id ∷ ids) dst h k (small, others) =
    let l = length-append (decimal id) (pointed ids) in
    ap (append_ids 128 ids) (number-at 128 id [] dst small h (omega (arith, l)))
    ∙ append_ids-cursor 128 ids (decimal id) dst h (omega (arith, l)) others

pointed-Lacks : (ids : List ℕ) → AllIds ids → Lacks 0 (pointed ids)
pointed-Lacks [] small = tt
pointed-Lacks (id ∷ ids) (small, others) = (
  λ e. absurd (omega arith),
  Lacks-append 0 (decimal id) (pointed ids) (decimal-Lacks id small) (pointed-Lacks ids others),
)

dotted-Lacks : (ids : List ℕ) → AllIds ids → Lacks 0 (dotted ids)
dotted-Lacks [] small = tt
dotted-Lacks (id ∷ ids) (small, others) =
    Lacks-append 0 (decimal id) (pointed ids) (decimal-Lacks id small) (pointed-Lacks ids others)

-- A path that fits into its array is the numbers behind its first one, with points between them.
pub path_text-dotted :
    (behind : ℕ) (dest : Bytes) (path : List ℕ)
    → 128 ≤ length dest
    → length (dotted (printed_ids behind path)) < 128
    → AllIds (printed_ids behind path)
    → path_text behind dest path ≡ dotted (printed_ids behind path)
unfolding path_text
path_text-dotted behind dest path size fits small =
    let ids = printed_ids behind path in
    rw (append_path-cursor ids dest size fits small) (
      ap c_string (put-at (dotted ids) (0 ∷ []) dest (omega arith))
      ∙ c_string-at (dotted ids) dest (dotted-Lacks ids small))

-- The columns of every session: the period, the protocol and the two paths; the active sessions; the
-- volume, the payload and the packets, in total, up and down; the start; the addresses of IP and of
-- Ethernet; the session; the ports of the server and of the client; the worker; the three times; the
-- round trips, the least, the greatest and the average one; the retransmissions; the application.
abbrev pub basic_columns : Context → Report → List Element
basic_columns context r =
    let o = r.observed in
    let s = r.stat in
    int context.stat_periods_index
    ∷ int (last_of o.proto_path)
    ∷ str (dotted (printed_ids context.behind_path o.path_ul))
    ∷ str (dotted (printed_ids context.behind_path o.path_dl))
    ∷ int o.active_session_count
    ∷ int r.volumes.total
    ∷ int r.payload.total
    ∷ int r.packets.total
    ∷ int r.volumes.up
    ∷ int r.payload.up
    ∷ int r.packets.up
    ∷ int r.volumes.down
    ∷ int r.payload.down
    ∷ int r.packets.down
    ∷ time o.init_time
    ∷ str s.ip_src
    ∷ str s.ip_dst
    ∷ mac s.mac_src
    ∷ mac s.mac_dst
    ∷ int o.session_id
    ∷ int s.port_dst
    ∷ int s.port_src
    ∷ int context.worker_index
    ∷ int r.times.handshake_time
    ∷ int r.times.app_response_time
    ∷ int r.times.data_transfer_time
    ∷ int s.rtt.min_of.upload
    ∷ int s.rtt.min_of.download
    ∷ int s.rtt.max_of.upload
    ∷ int s.rtt.max_of.download
    ∷ int (div s.rtt.sum.upload s.rtt.counter.upload)
    ∷ int (div s.rtt.sum.download s.rtt.counter.download)
    ∷ int s.retransmission.upload
    ∷ int s.retransmission.download
    ∷ int (number_of_app s.app.app_type)
    ∷ int o.application_class
    ∷ int s.app.content_class
    ∷ []

-- The columns of a web session: the response time, the requests and the time of the interaction; the host
-- name, the MIME type and the referer; the CDN; the URI, the method, the response and the length; the
-- place in the transaction.
abbrev pub web_columns : Bool → WebStat → List Element
web_columns has_cdn w =
    int (interval w w.request_time)
    ∷ int w.request_nb
    ∷ int (interval w w.first_request_time)
    ∷ str w.hostname
    ∷ str w.mime_type
    ∷ str w.referer
    ∷ int (cdn_flag has_cdn w)
    ∷ str w.uri
    ∷ str w.method
    ∷ str w.response
    ∷ str w.content_len
    ∷ int w.transaction_indicator
    ∷ []
