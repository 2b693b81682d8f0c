-- ===== src/Tests/Output.antt =====
-- Reports, data files and their folder, on small inputs.
use mmt_probe.Base.{
  if◌then◌else◌, ◌>>=◌, ℕ, ◌-◌, ◌%◌, ◌^◌, ◌≤◌, ◌<◌, ◌≡◌, ◌==◌, refl, true, false, List, [], ◌∷◌,
  ◌++◌, Option, none, some, length, map, take, replicate, arith, length-replicate,
}
use mmt_probe.Base.Bytes.{Bytes, codes, eq_bytes}
use mmt_probe.Report.Rtt.{Timeval}
use mmt_probe.Text.Builder.Build.{AllGood, joined-le}
use mmt_probe.Output.File.{
  create_new_file, FileConf, FileOutput, Answers, created, closed, flushed, limit_files,
  filter_names, load_filter, has_length, strstr, remove_old_sampled_files,
}
use mmt_probe.Output.File.Cycle.{create_new_file-Begun, HasRoom, Begun, ending, file_name}
use mmt_probe.Output.File.Retain.{with_sem, removals, AllFit, remove_old_sampled_files_lem}
use mmt_probe.Output.Cache
use mmt_probe.Output.Cache.{Mongo, Insertion, Cached, documents, operate_all-Cached}
use mmt_probe.Output
use mmt_probe.Output.{Output, Delivered, Sent, output_flush}
use mmt_probe.Output.Lines.{
  elements, AllEntries, IsEntry, Entry, file_only, filed_line, report_all, reports-flush,
}

abbrev conf : FileConf
conf = record {
  is_enable = true;
  is_sampled = true;
  retained_files_count = 1;
  directory = codes "d/";
  filename = codes "f.csv";
}

abbrev at_time : ℕ → Timeval
at_time s = record { tv_sec = s; tv_usec = 7 }

conf-HasRoom : HasRoom conf
conf-HasRoom = record {
  fits = omega arith;
  directory_string = (λ e. absurd (omega arith), (λ e. absurd (omega arith), tt));
  filename_string = (
    λ e. absurd (omega arith),
    (
      λ e. absurd (omega arith),
      (λ e. absurd (omega arith), (λ e. absurd (omega arith), (λ e. absurd (omega arith), tt))),
    ),
  );
}

abbrev answers_at : ℕ → Answers
answers_at s = record { now = at_time s; opens = true; entries = none }

abbrev blank : FileOutput
blank = record { id = 1; nb_messages = 0; buffer = replicate 300 0; is_open = false }

abbrev many : 255 ≤ 300
many = omega arith

abbrev begun :
    (new : FileOutput) × (create_new_file conf (answers_at 100) blank
      ≡ some (created (file_name conf 1 (at_time 100)) ∷ limit_files conf true none, new))
    × Begun conf conf-HasRoom 1 (omega arith) (at_time 100) new
begun =
    create_new_file-Begun conf conf-HasRoom 1 (omega arith) (answers_at 100) blank
      (omega arith, omega arith) refl refl many

abbrev entry : ℕ → Entry
entry s = record { report_type = 8; ts = at_time s; body = codes "x" }

abbrev undocumented : Bytes → Option ℕ
undocumented s = none

abbrev answered : Delivered
answered = record { by_kafka = false; by_redis = false; by_socket = false; by_mongodb = false }

-- the arrays of the calls
unfoldable zeros : Bytes
zeros = replicate 3000 0

zeros-size : 3000 ≤ length zeros
unfolding zeros
zeros-size = omega (arith, length-replicate {A = ℕ} 3000 0)

two_entries :
    AllEntries undocumented zeros zeros-size answered false false false false 5
      (codes "s")
      conf
      (entry 101 ∷ entry 102 ∷ [])
two_entries = (is_entry 101 (omega arith), (is_entry 102 (omega arith), tt))
  where
    is_entry :
        (s : ℕ)
        → s < 10 ^ 6
        → IsEntry undocumented zeros zeros-size answered false false false false 5
            (codes "s")
            conf
            (entry s)
    is_entry s h =
        let good : AllGood (
            elements undocumented zeros zeros-size answered false false false false 5 (codes "s")
              conf (entry s)) =
          (omega arith, (omega arith, (tt, ((omega arith, omega arith), tt)))) in
        record {
          fits = omega arith;
          good = good;
          source_string = (λ e. absurd (omega arith), tt);
          body_string = (λ e. absurd (omega arith), tt);
          body_fits = omega (
            arith,
            joined-le (b',' ∷ [])
                (elements undocumented zeros zeros-size answered false false false false 5
                  (codes "s") conf (entry s))
                good,
          );
        }

reports-flush_example :
    (last : Output ℕ) × (new : FileOutput) × (report_all undocumented zeros zeros-size answered
        false false false false 5
        (codes "s")
        conf
        (entry 101 ∷ entry 102 ∷ [])
        (file_only 5 (codes "s") conf (at_time 100) begun.0)
      ≡ some (
        map
            (filed_line undocumented zeros zeros-size answered false false false false 5
              (codes "s")
              conf)
            (entry 101 ∷ entry 102 ∷ []),
        last,
      ))
    × (output_flush undocumented zeros true (answers_at 103) true last
        ≡ some (
          (flushed
                ∷ closed
                ∷ ending conf conf-HasRoom 1 (omega arith) (at_time 100) true (2 % 2 ^ 32))
              ++ created (file_name conf 1 (at_time 103)) ∷ limit_files conf true none,
          [],
          file_only 5 (codes "s") conf (at_time 102) new,
        ))
    × Begun conf conf-HasRoom 1 (omega arith) (at_time 103) new
reports-flush_example =
    reports-flush undocumented zeros zeros-size answered false false false false 5 (codes "s") conf
      1 (omega arith) conf-HasRoom (at_time 100) (at_time 100) begun.0 (entry 101 ∷ entry 102 ∷ [])
      zeros true (answers_at 103) true refl begun.2 (omega arith, omega arith)
      (omega arith, omega arith) refl (omega (arith, zeros-size)) two_entries

abbrev folder : List Bytes
folder = codes "a.csv.sem" ∷ codes "b.csv" ∷ codes "c.csv.sem" ∷ []

folder_names : filter_names folder ≡ codes "a.csv.sem" ∷ codes "c.csv.sem" ∷ []
unfolding load_filter has_length strstr eq_bytes
folder_names = refl

folder-AllFit : AllFit (codes "d/") (filter_names folder)
folder-AllFit = rw folder_names (omega arith, (omega arith, tt))

remove_old_sampled_files_lem_example :
    (bases : List Bytes) × (map with_sem bases ≡ take (length bases) (filter_names folder))
    × (remove_old_sampled_files (codes "d/") 1 (some folder)
        ≡ (length bases, removals (codes "d/") bases))
    × (length bases ≡ length (filter_names folder) - 1)
remove_old_sampled_files_lem_example =
    remove_old_sampled_files_lem (codes "d/") 1 folder folder-AllFit

abbrev cache : Mongo ℕ
cache = record { cached = 4 ∷ []; messages_max_limit = 2 }

-- a message is well formatted if it begins with '['
abbrev bracketed : Bytes → Option ℕ
bracketed [] = none
bracketed (c ∷ s) = if c == b'[' then some (length s) else none

operate_all-Cached_example :
    (r : List (Insertion ℕ) × Mongo ℕ) × (Cache.operate_all bracketed
        (Cache.write (codes "[5]") false ∷ Cache.write (codes "x") true ∷ Cache.flush true ∷ [])
        cache
      ≡ some r)
    × Cached bracketed cache
        (documents bracketed
          (Cache.write (codes "[5]") false ∷ Cache.write (codes "x") true ∷ Cache.flush true ∷ []))
        r
operate_all-Cached_example =
    operate_all-Cached bracketed
      (Cache.write (codes "[5]") false ∷ Cache.write (codes "x") true ∷ Cache.flush true ∷ []) cache
      (omega arith)

abbrev plain : Output ℕ
plain = file_only 5 (codes "s") conf (at_time 100) blank
