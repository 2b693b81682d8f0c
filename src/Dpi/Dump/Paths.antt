-- ===== src/Dpi/Dump/Paths.antt =====
-- The paths of the files that src/modules/dpi/pcap_dump/pcap_dump.c opens.
use mmt_probe.Base.{
  ℕ, ◌+◌, ◌%◌, ◌^◌, ◌≤◌, ◌<◌, ◌≡◌, ◌≢◌, refl, ap, sym, ◌∙◌, Bool, true, false, Bool-cases,
  Option-cases, inl, inr, List, [], ◌∷◌, ◌++◌, Option, none, some, ltb, min, subst, arith,
}
use mmt_probe.Base.Bytes.{Bytes, eq_bytes, eq_bytes_iff}
use mmt_probe.Dpi.Dump.{
  Captured, Dump, is_dumped, is_due, close, without, new_file, write_to, write_packet, on_packet,
}

module _ (path_of : ℕ → Bytes) where
  -- Each file was opened at a moment up to the bound.
  abbrev pub AllUpTo : ℕ → List (Bytes × Bytes) → Type 0
  AllUpTo bound [] = Unit {0}
  AllUpTo bound (f ∷ fs) = ((t : ℕ) × (f.0 ≡ path_of t) × (t ≤ bound)) × AllUpTo bound fs

  -- Before the first file there is none; later, each was opened up to the time of the next one.
  pub record IsPast (d : Dump) : Type 0 where
    pub start : d.file ≡ none → d.finished ≡ []
    pub opened : AllUpTo d.next_ts_to_dump_to_new_file (close d.file d.finished)

  raise : (a b : ℕ) (fs : List (Bytes × Bytes)) → a ≤ b → AllUpTo a fs → AllUpTo b fs
  raise a b [] h all = tt
  raise a b (f ∷ fs) h ((t, e, k), all) = ((t, e, omega arith), raise a b fs h all)

  other_path : (a b : Bytes) → a ≢ b → eq_bytes a b ≡ false
  other_path a b ne = elim (Bool-cases (eq_bytes a b)) [
    | inl e ↦ absurd (ne ((eq_bytes_iff a b).0 e))
    | inr e ↦ e
  ]

  module _ (injective : (a b : ℕ) → path_of a ≡ path_of b → a ≡ b) where
    without-later :
        (moment bound : ℕ) (fs : List (Bytes × Bytes))
        → bound < moment
        → AllUpTo bound fs
        → without (path_of moment) fs ≡ fs
    unfolding without
    without-later moment bound [] h all = refl
    without-later moment bound (f ∷ fs) h ((t, e, k), all) =
        rw
          (other_path f.0 (path_of moment)
            (λ same. let q = injective t moment (sym e ∙ same) in absurd (omega arith)))
          (ap (λ l. f ∷ l) (without-later moment bound fs h all))

    -- A file that is due has a path of its own.
    pub without-due :
        (p : Captured) (d : Dump)
        → IsPast d
        → is_due d p ≡ true
        → without (path_of p.ts.tv_sec) (close d.file d.finished) ≡ close d.file d.finished
    without-due p d past due = elim (Option-cases d.file) [
      | inl e ↦ rw (e, past.start e) (unfold without in refl)
      | inr (f, e) ↦
          let late : ltb d.next_ts_to_dump_to_new_file p.ts.tv_sec ≡ true = rw e at due in
          without-later p.ts.tv_sec d.next_ts_to_dump_to_new_file (close d.file d.finished)
            (ground arith) past.opened
    ]

    write_to-IsPast : (p : Captured) (d : Dump) → IsPast d → IsPast (write_to path_of p d)
    unfolding write_to
    write_to-IsPast p d past = by_file d.file refl
      where
        by_file :
            (f : Option (Bytes × Bytes))
            → d.file ≡ f
            → IsPast (elim f [
              | none ↦ d
              | some (path, contents) ↦ record d {
                file =
                    some
                      (path, contents ++ write_packet p.bytes p.len (min p.caplen d.snap_len) p.ts);
              }
            ])
        by_file none e = past
        by_file (some (path, contents)) e = record {
          start = λ n. cc;
          opened =
              subst (λ o. AllUpTo d.next_ts_to_dump_to_new_file (close o d.finished)) e past.opened;
        }

    new_file-IsPast :
        (p : Captured) (d : Dump)
        → p.ts.tv_sec + d.frequency < 2 ^ 32
        → IsPast d
        → is_due d p ≡ true
        → IsPast (new_file path_of true p d)
    unfolding new_file
    new_file-IsPast p d small past due =
        let next = (p.ts.tv_sec + d.frequency) % 2 ^ 32 in
        let whole : next ≡ p.ts.tv_sec + d.frequency = omega arith in
        let others : AllUpTo next (close d.file d.finished) = elim (Option-cases d.file) [
          | inl e ↦ rw (e, past.start e) tt
          | inr (f, e) ↦
              let late : ltb d.next_ts_to_dump_to_new_file p.ts.tv_sec ≡ true = rw e at due in
              raise d.next_ts_to_dump_to_new_file next (close d.file d.finished) (ground arith)
                past.opened
        ] in
        record {
          start = λ n. cc;
          opened = ((p.ts.tv_sec, refl, omega arith), rw (without-due p d past due) others);
        }

    pub on_packet-IsPast :
        (p : Captured) (d : Dump)
        → p.ts.tv_sec + d.frequency < 2 ^ 32
        → IsPast d
        → IsPast (on_packet path_of true p d)
    unfolding on_packet
    on_packet-IsPast p d small past = elim (Bool-cases (is_dumped d.proto_ids_lst p.proto_path)) [
      | inr skip ↦ rw skip past
      | inl kept ↦ elim (Bool-cases (is_due d p)) [
        | inl due ↦
            rw (kept, due)
              (write_to-IsPast p (new_file path_of true p d) (new_file-IsPast p d small past due))
        | inr early ↦ rw (kept, early) (write_to-IsPast p d past)
      ]
    ]

pub on_packet-frequency :
    (path_of : ℕ → Bytes) (b : Bool) (p : Captured) (d : Dump)
    → (on_packet path_of b p d).frequency ≡ d.frequency
unfolding on_packet write_to new_file
on_packet-frequency path_of b p d = ground arith
