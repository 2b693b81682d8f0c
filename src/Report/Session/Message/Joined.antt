-- ===== src/Report/Session/Message/Joined.antt =====
-- The text of the report of a web session, src/modules/dpi/report/session_report.c and
-- session_report_web.c.
use mmt_probe.Base.{ℕ, ◌+◌, ◌-◌, ◌≤◌, ◌<◌, List, [], ◌∷◌, ◌++◌, length, drop}
use mmt_probe.Base.Bytes.{Bytes, Lacks}
use mmt_probe.Text.Builder.{Element}
use mmt_probe.Text.Builder.Strings.{AllStrings}
use mmt_probe.Text.Builder.At.{at}
use mmt_probe.Text.Builder.Build.{joined, total_room, AllGood}
use mmt_probe.Output.{max_message}
use mmt_probe.Report.Session.{Report}
use mmt_probe.Report.Session.Message.Columns.{dotted, AllIds}
use mmt_probe.Report.Session.Message.{printed_ids, Context}

-- The elements have values of their C types, their texts hold no byte 0, and the array has room for
-- them.
pub record HasRoom (room : ℕ) (es : List Element) : Type 0 where
  pub fits : total_room (b',' ∷ []) es + 1 < room
  pub good : AllGood es
  pub strings : AllStrings es

abbrev pub listed : List Element → Bytes
listed es = joined (b',' ∷ []) es

-- a part behind a basic one of which the array holds the text
module _ (memory basic : Bytes) (ws : List Element) (size : max_message ≤ length memory)
    (room : length basic + 1 < max_message) (string : Lacks 0 basic)
    (h : HasRoom (max_message - (length basic + 1)) ws) where
  abbrev separated : Bytes
  separated = basic ++ b',' ∷ []

  abbrev before : Bytes
  before = at (basic ++ 0 ∷ []) memory

  abbrev behind : Bytes
  behind = drop (length separated) before

-- The paths of a report fit into their arrays.
pub record HasPath (context : Context) (path : Bytes) (ids : List ℕ) : Type 0 where
  pub size : 128 ≤ length path
  pub fits : length (dotted (printed_ids context.behind_path ids)) < 128
  pub small : AllIds (printed_ids context.behind_path ids)
