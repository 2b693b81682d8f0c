-- ===== src/Output/Reports.antt =====
-- The text of the reports that src/modules/output/output.c writes.
use mmt_probe.Base.{
  ℕ, ◌+◌, ◌-◌, ◌≤◌, ◌<◌, ◌≡◌, refl, ap, sym, ◌∙◌, false, [], ◌∷◌, ◌++◌, Option, none, some, length,
  length-append, take_all, lt→ltb, le→ltb, ◌>>=◌, arith,
}
use mmt_probe.Base.Bytes.{Bytes, Lacks, Lacks-append}
use mmt_probe.Config.Channels.{Channels}
use mmt_probe.Report.Rtt.{Timeval}
use mmt_probe.Text.Builder.{int, str, time, put, string_builder_with_separator}
use mmt_probe.Text.Builder.Strings.{joined-Lacks}
use mmt_probe.Text.Builder.At.{at, put-at, length-at, at-over, c_string-at}
use mmt_probe.Text.Builder.Build.{joined, joined-le, total_room, AllGood, string_builder_lem}
use mmt_probe.Output.{
  Output, Delivered, max_message, max_header, header_elements, is_silent, add_body, write, stamp,
  output_write_report,
}

-- The body goes behind the header, with a comma between them.
add_body-fits :
    (header body m : Bytes)
    → length header + length body + 1 < max_message
    → max_message ≤ length m
    → length header < length m
    → add_body (some body) (length header, at (header ++ 0 ∷ []) m)
      ≡ some (at (((header ++ b',' ∷ []) ++ body) ++ 0 ∷ []) (at (header ++ 0 ∷ []) m))
unfolding add_body
add_body-fits header body m fits size k =
    let m' = at (header ++ 0 ∷ []) m in
    let l : length m' ≡ length m =
      length-at (header ++ 0 ∷ []) m (omega (arith, length-append header (0 ∷ []))) in
    let one : length header + 1 ≡ length (header ++ b',' ∷ []) =
      omega (arith, length-append header (b',' ∷ [])) in
    let two : length header + 1 + length body ≡ length ((header ++ b',' ∷ []) ++ body) =
      omega (arith, one, length-append (header ++ b',' ∷ []) body) in
    let short = le→ltb (max_message - (length header + 1)) (length body) (omega arith) in
    let inside = lt→ltb (length header + 1 + length body) max_message (omega arith) in
    let first : put (length header) (b',' ∷ []) m' ≡ at (header ++ b',' ∷ []) m' =
      ap (put (length header) (b',' ∷ [])) (sym (at-over header 0 m))
      ∙ put-at header (b',' ∷ []) m' (omega arith) in
    rw (short, inside, take_all (length body) body (omega arith), first, two, one)
      (ap some (
        ap (put (length ((header ++ b',' ∷ []) ++ body)) (0 ∷ []))
          (put-at (header ++ b',' ∷ []) body m' (omega arith))
        ∙ put-at ((header ++ b',' ∷ []) ++ body) (0 ∷ []) m' (omega arith)))

-- A body that does not fit is cut so that its terminating byte goes behind the array.
add_body-overruns :
    (header body m : Bytes)
    → length header + 1 ≤ max_message
    → max_message ≤ length header + length body + 1
    → add_body (some body) (length header, m) ≡ none
unfolding add_body
add_body-overruns header body m k h = ground arith

module _ {ℓ} {Document : Type ℓ} (parse : Bytes → Option Document) (memory : Bytes)
    (size : max_message ≤ length memory) (answers : Delivered) where
  -- The common part of a report: its type, the number of the probe, the source, the time.
  abbrev pub header : Output Document → ℕ → Timeval → Bytes
  header output report_type ts =
      joined (b',' ∷ [])
        (int report_type ∷ int output.probe_id ∷ str output.input_src ∷ time ts ∷ [])

  abbrev pub report_text : Output Document → ℕ → Timeval → Bytes → Bytes
  report_text output report_type ts body = (header output report_type ts ++ b',' ∷ []) ++ body

  -- The common part has room, and is a C string.
  pub record HasHeader (output : Output Document) (report_type : ℕ) (ts : Timeval) : Type 0 where
    pub fits : total_room (b',' ∷ []) (header_elements output report_type ts) + 1 < max_header
    pub good : AllGood (header_elements output report_type ts)
    pub string : Lacks 0 output.input_src

  built :
      (output : Output Document) (report_type : ℕ) (ts : Timeval)
      → HasHeader output report_type ts
      → string_builder_with_separator 0 memory max_header
          (b',' ∷ [])
          (header_elements output report_type ts)
        ≡ some (
          length (header output report_type ts),
          at (header output report_type ts ++ 0 ∷ []) memory,
        )
  built output report_type ts h =
      string_builder_lem [] memory max_header (b',' ∷ []) (header_elements output report_type ts)
        (omega arith) (omega (arith, h.fits)) h.good

  header-short :
      (output : Output Document) (report_type : ℕ) (ts : Timeval)
      → HasHeader output report_type ts
      → length (header output report_type ts) < max_header
  header-short output report_type ts h =
      omega (arith, joined-le (b',' ∷ []) (header_elements output report_type ts) h.good, h.fits)

  report_text-Lacks :
      (output : Output Document) (report_type : ℕ) (ts : Timeval) (body : Bytes)
      → HasHeader output report_type ts
      → Lacks 0 body
      → Lacks 0 (report_text output report_type ts body)
  report_text-Lacks output report_type ts body h l =
      let head = header output report_type ts in
      let (a, (b, (c, (d, e)))) = h.good in
      Lacks-append 0 (head ++ b',' ∷ []) body
        (Lacks-append 0 head (b',' ∷ [])
          (joined-Lacks (b',' ∷ []) (header_elements output report_type ts)
            (λ e. absurd (omega arith), tt) (a, (b, (h.string, (d, tt)))))
          (λ e. absurd (omega arith), tt))
        l

  pub output_write_report_lem :
      (output : Output Document) (channels : Channels) (report_type : ℕ) (ts : Timeval)
      (body : Bytes)
      → is_silent output channels ≡ false
      → HasHeader output report_type ts
      → Lacks 0 body
      → length (header output report_type ts) + length body + 1 < max_message
      → output_write_report parse memory answers output channels report_type ts (some body) ≡ (do
        w ← write parse answers output channels (report_text output report_type ts body)
        some (stamp ts w))
  unfolding output_write_report
  output_write_report_lem output channels report_type ts body on h l fits =
      let head = header output report_type ts in
      let k = header-short output report_type ts h in
      rw
        (
          on,
          built output report_type ts h,
          add_body-fits head body memory fits size (omega arith),
          c_string-at (report_text output report_type ts body) (at (head ++ 0 ∷ []) memory)
              (report_text-Lacks output report_type ts body h l),
        )
        refl

  -- A report whose body does not fit behind its header writes a byte behind the array.
  pub output_write_report-overruns :
      (output : Output Document) (channels : Channels) (report_type : ℕ) (ts : Timeval)
      (body : Bytes)
      → is_silent output channels ≡ false
      → HasHeader output report_type ts
      → max_message ≤ length (header output report_type ts) + length body + 1
      → output_write_report parse memory answers output channels report_type ts (some body) ≡ none
  unfolding output_write_report
  output_write_report-overruns output channels report_type ts body on h long =
      let head = header output report_type ts in
      let k = header-short output report_type ts h in
      rw
        (
          on,
          built output report_type ts h,
          add_body-overruns head body (at (head ++ 0 ∷ []) memory) (omega arith) long,
        )
        refl
