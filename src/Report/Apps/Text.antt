-- ===== src/Report/Apps/Text.antt =====
-- The strings that `dpi_copy_string_value` of src/modules/dpi/dpi_tool.h leaves for the reports.
use mmt_probe.Base.{ℕ, ◌≢◌, [], ◌∷◌, map}
use mmt_probe.Base.Bytes.{Bytes, c_string}
use mmt_probe.Report.Apps.{json_char}

-- A byte that may stand in a JSON string and in a C string.
abbrev pub IsPlain : ℕ → Type 0
IsPlain c = (c ≢ 0) × (c ≢ b'"') × (c ≢ b'\\') × (c ≢ 8) × (c ≢ 9) × (c ≢ 10) × (c ≢ 12) × (c ≢ 13)

abbrev pub AllPlain : Bytes → Type 0
AllPlain [] = Unit {0}
AllPlain (c ∷ s) = IsPlain c × AllPlain s

-- the string at the front of what is copied
abbrev copied : Bytes → Bytes
copied s = c_string (map json_char s)
