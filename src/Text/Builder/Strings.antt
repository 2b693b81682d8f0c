-- ===== src/Text/Builder/Strings.antt =====
-- The text that the macros of src/lib/string_builder.h write is a C string, when the strings among
-- their arguments are.
use mmt_probe.Base.{ℕ, zero, suc, ◌-◌, ◌^◌, ◌<◌, ◌≢◌, List, [], ◌∷◌, ◌++◌, length, replicate, arith}
use mmt_probe.Base.Bytes.{Bytes, Lacks, Lacks-append}
use mmt_probe.Report.Rtt.{Timeval}
use mmt_probe.Text.Number.Correct.{AllDigits, decimal, decimal-IsDecimal}
use mmt_probe.Text.Builder.{Element, arr, str, int, chr, time, hexa, mac, ipv4}
use mmt_probe.Text.Builder.Time.{time_text, usec_text}
use mmt_probe.Text.Builder.Elements.{element_text}
use mmt_probe.Text.Builder.Build.{joined, joined_rest}

AllDigits-Lacks : (s : Bytes) → AllDigits s → Lacks 0 s
AllDigits-Lacks [] h = tt
AllDigits-Lacks (c ∷ s) (a, b, h) = (λ e. absurd (omega arith), AllDigits-Lacks s h)

pub decimal-Lacks : (v : ℕ) → v < 2 ^ 64 → Lacks 0 (decimal v)
decimal-Lacks v h = AllDigits-Lacks (decimal v) (decimal-IsDecimal v h).all_digits

zeros-Lacks : (n : ℕ) → Lacks 0 (replicate n b'0')
zeros-Lacks zero = tt
zeros-Lacks (suc n) = (λ e. absurd (omega arith), zeros-Lacks n)

time_text-Lacks : (t : Timeval) → t.tv_sec < 10 ^ 12 → t.tv_usec < 10 ^ 6 → Lacks 0 (time_text t)
time_text-Lacks t s u =
    Lacks-append 0 (decimal t.tv_sec ++ b'.' ∷ []) (usec_text t.tv_usec)
      (Lacks-append 0 (decimal t.tv_sec) (b'.' ∷ []) (decimal-Lacks t.tv_sec (omega arith))
        (λ e. absurd (omega arith), tt))
      (Lacks-append 0 (replicate (6 - length (decimal t.tv_usec)) b'0') (decimal t.tv_usec)
        (zeros-Lacks (6 - length (decimal t.tv_usec))) (decimal-Lacks t.tv_usec (omega arith)))

-- What makes the text of an element a C string.
abbrev pub IsString : Element → Type 0
IsString (arr s) = Lacks 0 s
IsString (str s) = Lacks 0 s
IsString (int v) = v < 2 ^ 64
IsString (chr c) = c ≢ 0
IsString (time t) = (t.tv_sec < 10 ^ 12) × (t.tv_usec < 10 ^ 6)
IsString (hexa v) = Lacks 0 (element_text (hexa v))
IsString (mac t) = Lacks 0 (element_text (mac t))
IsString (ipv4 p) = Lacks 0 (element_text (ipv4 p))

abbrev pub AllStrings : List Element → Type 0
AllStrings [] = Unit {0}
AllStrings (e ∷ es) = IsString e × AllStrings es

element_text-Lacks : (e : Element) → IsString e → Lacks 0 (element_text e)
element_text-Lacks (arr s) h = h
element_text-Lacks (str s) h =
    (λ e. absurd (omega arith), Lacks-append 0 s (b'"' ∷ []) h (λ e. absurd (omega arith), tt))
element_text-Lacks (int v) h = decimal-Lacks v h
element_text-Lacks (chr c) h = (h, tt)
element_text-Lacks (time t) (s, u) = time_text-Lacks t s u
element_text-Lacks (hexa v) h = h
element_text-Lacks (mac t) h = h
element_text-Lacks (ipv4 p) h = h

joined_rest-Lacks :
    (sepa : Bytes) (es : List Element)
    → Lacks 0 sepa
    → AllStrings es
    → Lacks 0 (joined_rest sepa es)
joined_rest-Lacks sepa [] h k = tt
joined_rest-Lacks sepa (e ∷ es) h (k, ks) =
    Lacks-append 0 sepa (element_text e ++ joined_rest sepa es) h (
      Lacks-append 0 (element_text e) (joined_rest sepa es) (element_text-Lacks e k)
        (joined_rest-Lacks sepa es h ks))

pub joined-Lacks :
    (sepa : Bytes) (es : List Element) → Lacks 0 sepa → AllStrings es → Lacks 0 (joined sepa es)
joined-Lacks sepa [] h k = tt
joined-Lacks sepa (e ∷ es) h (k, ks) =
    Lacks-append 0 (element_text e) (joined_rest sepa es) (element_text-Lacks e k)
      (joined_rest-Lacks sepa es h ks)
