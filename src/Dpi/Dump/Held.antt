-- ===== src/Dpi/Dump/Held.antt =====
-- What the files of src/modules/dpi/pcap_dump/pcap_dump.c hold while packets come.
use mmt_probe.Base.{
  ℕ, ◌≤◌, ◌≡◌, refl, ap, ◌∙◌, sym, true, false, Bool-cases, inl, inr, List, [], ◌∷◌, ◌++◌,
  append_assoc, append-nil, none, some, length, min, if◌then◌else◌, arith,
}
use mmt_probe.Base.Bytes.{Bytes}
use mmt_probe.Dpi.Dump.{
  Captured, Dump, file_header, is_dumped, is_due, close, without, new_file, write_to, on_packet,
}
use mmt_probe.Dpi.Dump.Format.{Call, written, all_written, AllFit, file_of}

-- the packets of the files, the last file first
abbrev pub flat : List (List Call) → List Call
flat [] = []
flat (cs ∷ gs) = flat gs ++ cs

abbrev pub files_of : ℕ → ℕ → List (List Call) → List Bytes
files_of snap stack [] = []
files_of snap stack (cs ∷ gs) = file_of snap stack cs ∷ files_of snap stack gs

abbrev pub contents : List (Bytes × Bytes) → List Bytes
contents [] = []
contents (f ∷ fs) = f.1 ∷ contents fs

abbrev pub AllFiles : List (List Call) → Type 0
AllFiles [] = Unit {0}
AllFiles (cs ∷ gs) = AllFit cs × AllFiles gs

-- The files of a dump hold these packets, the last file first.
pub data Holds (d : Dump) : List (List Call) → Type 0 where
  no_file :
      (gs : List (List Call))
      → d.file ≡ none
      → contents d.finished ≡ files_of d.snap_len d.stack_type gs
      → AllFiles gs
      → Holds d gs
  one_file :
      (path : Bytes) (cs : List Call) (gs : List (List Call))
      → d.file ≡ some (path, file_of d.snap_len d.stack_type cs)
      → contents d.finished ≡ files_of d.snap_len d.stack_type gs
      → AllFit cs
      → AllFiles gs
      → Holds d (cs ∷ gs)

abbrev pub arguments_of : ℕ → Captured → Call
arguments_of snap p = record { buf = p.bytes; len = p.len; caplen = min p.caplen snap; tv = p.ts }

AllFit-append : (cs ds : List Call) → AllFit cs → AllFit ds → AllFit (cs ++ ds)
AllFit-append [] ds h k = k
AllFit-append (c ∷ cs) ds (f, h) k = (f, AllFit-append cs ds h k)

all_written-append :
    (cs : List Call) (c : Call) → all_written (cs ++ c ∷ []) ≡ all_written cs ++ written c
all_written-append [] c = append-nil (written c)
all_written-append (x ∷ cs) c =
    ap (λ m. written x ++ m) (all_written-append cs c)
    ∙ sym (append_assoc (written x) (all_written cs) (written c))

-- The state after `d` has the configuration of `d`, and its files hold the packets of `before` and then
-- those of `more`.
pub record Goes (d e : Dump) (before more : List Call) : Type 0 where
  pub same_protos : e.proto_ids_lst ≡ d.proto_ids_lst
  pub same_snap : e.snap_len ≡ d.snap_len
  pub same_stack : e.stack_type ≡ d.stack_type
  pub held : List (List Call)
  pub holds : Holds e held
  pub grows : flat held ≡ before ++ more

pub closed :
    (d : Dump) (gs : List (List Call))
    → Holds d gs
    → (contents (close d.file d.finished) ≡ files_of d.snap_len d.stack_type gs) × AllFiles gs
closed d _ (no_file gs e f a) = (rw e f, a)
closed d _ (one_file path cs gs e f a b) =
    (rw e (ap (λ l. file_of d.snap_len d.stack_type cs ∷ l) f), (a, b))

module _ (path_of : ℕ → Bytes) where
  write-Goes :
      (p : Captured) (d : Dump) (path : Bytes) (cs : List Call) (gs : List (List Call))
      → p.caplen ≤ length p.bytes
      → d.file ≡ some (path, file_of d.snap_len d.stack_type cs)
      → contents d.finished ≡ files_of d.snap_len d.stack_type gs
      → AllFit cs
      → AllFiles gs
      → Goes d (write_to path_of p d) (flat gs ++ cs) (arguments_of d.snap_len p ∷ [])
  unfolding write_to
  write-Goes p d path cs gs fits e f a b = rw e (record {
    same_protos = refl;
    same_snap = refl;
    same_stack = refl;
    held = (cs ++ arguments_of d.snap_len p ∷ []) ∷ gs;
    holds =
        one_file path (cs ++ arguments_of d.snap_len p ∷ []) gs
          (ap (λ m. some (path, m))
            (append_assoc (file_header d.snap_len d.stack_type) (all_written cs)
                (written (arguments_of d.snap_len p))
              ∙ ap (λ m. file_header d.snap_len d.stack_type ++ m)
                  (sym (all_written-append cs (arguments_of d.snap_len p)))))
          f (AllFit-append cs (arguments_of d.snap_len p ∷ []) a (ground arith, tt)) b;
    grows = sym (append_assoc (flat gs) cs (arguments_of d.snap_len p ∷ []));
  })

  -- a file that is opened and written to at once
  new_file-Goes :
      (p : Captured) (d : Dump) (gs : List (List Call))
      → p.caplen ≤ length p.bytes
      → Holds d gs
      → without (path_of p.ts.tv_sec) (close d.file d.finished) ≡ close d.file d.finished
      → Goes d
          (write_to path_of p (new_file path_of true p d))
          (flat gs)
          (arguments_of d.snap_len p ∷ [])
  unfolding new_file
  new_file-Goes p d gs fits h kept =
      let (f, b) = closed d gs h in
      let header = file_header d.snap_len d.stack_type in
      let opened =
        write-Goes p (new_file path_of true p d) (path_of p.ts.tv_sec) [] gs fits
          (ap (λ m. some (path_of p.ts.tv_sec, m)) (sym (append-nil header))) (ap contents kept ∙ f)
          tt b in
      record {
        same_protos = opened.same_protos;
        same_snap = opened.same_snap;
        same_stack = opened.same_stack;
        held = opened.held;
        holds = opened.holds;
        grows = opened.grows ∙ ap (λ m. m ++ arguments_of d.snap_len p ∷ []) (append-nil (flat gs));
      }

  -- a file that is open goes on
  go_on-Goes :
      (p : Captured) (d : Dump) (gs : List (List Call))
      → p.caplen ≤ length p.bytes
      → is_due d p ≡ false
      → Holds d gs
      → Goes d (write_to path_of p d) (flat gs) (arguments_of d.snap_len p ∷ [])
  go_on-Goes p d _ fits early (no_file gs e f a) =
      let due : is_due d p ≡ true = rw e refl in absurd (ground arith)
  go_on-Goes p d _ fits early (one_file path cs gs e f a b) = write-Goes p d path cs gs fits e f a b

  pub on_packet-Goes :
      (p : Captured) (d : Dump) (gs : List (List Call))
      → p.caplen ≤ length p.bytes
      → Holds d gs
      → (is_due d p ≡ true
          → without (path_of p.ts.tv_sec) (close d.file d.finished) ≡ close d.file d.finished)
      → Goes d
          (on_packet path_of true p d)
          (flat gs)
          (if is_dumped d.proto_ids_lst p.proto_path then arguments_of d.snap_len p ∷ [] else [])
  unfolding on_packet
  on_packet-Goes p d gs fits h kept_all =
      elim (Bool-cases (is_dumped d.proto_ids_lst p.proto_path)) [
        | inr skip ↦ rw skip (record {
          same_protos = refl;
          same_snap = refl;
          same_stack = refl;
          held = gs;
          holds = h;
          grows = sym (append-nil (flat gs));
        })
        | inl kept ↦ elim (Bool-cases (is_due d p)) [
          | inl due ↦ rw (kept, due) (new_file-Goes p d gs fits h (kept_all due))
          | inr early ↦ rw (kept, early) (go_on-Goes p d gs fits early h)
        ]
      ]
