-- ===== src/TaskResults/Saving.antt =====
-- `save` of crates/agentplug-host/src/task_results.rs.
pub mod Planning
pub mod Refinement
pub mod Store
use agentplug.Base.{
  ℕ, ◌+◌, ◌^◌, ◌==◌, leb, ltb, Bool, true, false, not, ◌&&◌, ◌||◌, List, [], ◌∷◌, ◌++◌, Option,
  none, some, if◌then◌else◌, length,
}
use agentplug.Base.Ints.{ℤ, pos, negsuc}
use agentplug.Base.Bytes.{Bytes, bytes}
use agentplug.Base.Maps.{Text, text_eq, text_key, insert}
use agentplug.TaskResults.{
  CompletedTask, File, Files, Directory, Disk, Failure, Result, ok, err, valid_id, file_name,
  checked_directory, validate_record, read_record, prune_if_expired, is_true, scan_bound,
  record_bound, byte_overflow, byte_bound, different_content, too_long, store_full, invalid_record,
  max_record_bytes,
}

abbrev pub max_store_bytes : ℕ
max_store_bytes = 67_108_864

abbrev pub max_records : ℕ
max_records = 512

abbrev pub max_scan_entries : ℕ
max_scan_entries = 1_024

same_int : Option ℤ → Option ℤ → Bool
same_int none none = true
same_int (some (pos m)) (some (pos n)) = m == n
same_int (some (negsuc m)) (some (negsuc n)) = m == n
same_int a b = false

-- `==` of two records.
pub same_task : CompletedTask → CompletedTask → Bool
unfolding same_int
same_task a b =
    a.schema == b.schema
    && text_eq a.id b.id
    && text_eq a.lang b.lang
    && a.started_ms == b.started_ms
    && a.finished_ms == b.finished_ms
    && same_int a.exit_code b.exit_code
    && (if a.timed_out then b.timed_out else not b.timed_out)
    && text_eq a.stdout b.stdout
    && text_eq a.stderr b.stderr
    && a.stdout_omitted_bytes == b.stdout_omitted_bytes
    && a.stderr_omitted_bytes == b.stderr_omitted_bytes

-- `str::strip_suffix`, for a suffix that is not empty.
strip_suffix : Bytes → Bytes → Option Bytes
strip_suffix suffix [] = none
strip_suffix suffix (c ∷ t) =
    let rest = strip_suffix suffix t in
    if text_eq suffix (c ∷ t) then some [] else (elim rest [ none ↦ none | some r ↦ some (c ∷ r) ])

names_record : Option Bytes → Bool
names_record none = false
names_record (some id) = valid_id id

-- `sizes` and `total_bytes`
pub record Totals : Type 0 where
  pub sizes : List (Text × ℕ)
  pub total_bytes : ℕ

abbrev counted : Totals → Text → ℕ → Totals
counted t name size = record {
  sizes = insert name size t.sizes;
  total_bytes = t.total_bytes + size;
}

count_entry : Totals → Text → File → Result Totals
count_entry t name file =
    if leb max_records (length t.sizes)
    then err record_bound
    else if leb (2 ^ 64) (t.total_bytes + length file.contents)
    then err byte_overflow
    else if ltb max_store_bytes (t.total_bytes + length file.contents)
    then err byte_bound
    else ok (counted t name (length file.contents))

abbrev pub Write : Type 0
Write = Text × Bytes

-- The records and the time stamps by the parsers, the records printed, and whether the deadline of the
-- scan has passed when it comes to its n-th entry.
module _ (parse_record : Bytes → Option CompletedTask) (parse_stamp : Bytes → Option ℕ)
    (print : CompletedTask → Bytes) (late : ℕ → Bool) where
  -- Takes an expired record out of the directory, and says whether it did.
  pub prune_entry : ℕ → Text → Files → Files × Bool
  unfolding strip_suffix names_record is_true
  prune_entry now name files =
      if names_record (strip_suffix (bytes ".json") name)
      then (let (files', answer) = prune_if_expired parse_stamp name now files in
          (files', is_true parse_stamp answer))
      else (files, false)

  -- One turn of the loop over the directory.
  pub scan_entry : ℕ → ℕ → Text → File → Files → Totals → Files × Result Totals
  unfolding prune_entry count_entry
  scan_entry now scanned name file files t =
      if leb max_scan_entries scanned || late scanned then (files, err scan_bound) else (
        (prune_entry now name files).0,
        if (prune_entry now name files).1 then ok t else count_entry t name file,
      )

  pub scan : ℕ → ℕ → Files → Files → Totals → Files × Result Totals
  unfolding scan_entry
  scan now scanned [] files t = (files, ok t)
  scan now scanned ((name, file) ∷ entries) files t =
      let (files', answer) = scan_entry now scanned name file files t in
      elim answer [ err e ↦ (files', err e) | ok t' ↦ scan now (scanned + 1) entries files' t' ]

  plan_new : CompletedTask → Totals → Result (Totals × Option Write)
  plan_new r t =
      let t' = counted t (file_name r.id) (length (print r)) in
      if ltb max_record_bytes (length (print r))
      then err too_long
      else if leb (2 ^ 64) t'.total_bytes
      then err byte_overflow
      else if ltb max_records (length t'.sizes) || ltb max_store_bytes t'.total_bytes
      then err store_full
      else ok (t', some (file_name r.id, print r))

  pub plan_found :
      CompletedTask → Totals → Result (Option CompletedTask) → Result (Totals × Option Write)
  unfolding plan_new
  plan_found r t (err e) = err e
  plan_found r t (ok none) = plan_new r t
  plan_found r t (ok (some existing)) =
      if same_task existing r then ok (t, none) else err different_content

  -- One turn of the loop over the records.
  pub plan_record : Files → Totals → CompletedTask → Result (Totals × Option Write)
  unfolding plan_found
  plan_record files t r =
      if validate_record r r.id
      then plan_found r t (read_record parse_record r.id files)
      else err invalid_record

  and_write : Option Write → List Write → List Write
  and_write none writes = writes
  and_write (some w) writes = w ∷ writes

  pub plan : Files → Totals → List CompletedTask → Result (List Write)
  unfolding plan_record and_write
  plan files t [] = ok []
  plan files t (r ∷ records) = elim (plan_record files t r) [
    | err e ↦ err e
    | ok (t', w) ↦ elim (plan files t' records) [
      | err e ↦ err e
      | ok writes ↦ ok (and_write w writes)
    ]
  ]

  -- `atomic_write` of each of the writes.
  pub write_all : List Write → Files → Files
  write_all [] files = files
  write_all ((path, content) ∷ writes) files =
      write_all writes
        (insert path (record { contents = content; is_file = true; private = true }) files)

  written : Files → Result (List Write) → Files × Result (Unit {0})
  unfolding write_all
  written files (err e) = (files, err e)
  written files (ok writes) = (write_all writes files, ok tt)

  pub planned : List CompletedTask → Files × Result Totals → Files × Result (Unit {0})
  unfolding written plan
  planned records (files, err e) = (files, err e)
  planned records (files, ok t) = written files (plan files t records)

  -- `save` in the directory's files.
  pub save_files : List CompletedTask → ℕ → Files → Files × Result (Unit {0})
  unfolding planned scan
  save_files records now files =
      planned records (scan now 0 files files (record { sizes = []; total_bytes = 0 }))

  pub save_in : List CompletedTask → ℕ → Disk × Result (Option Directory) → Disk × Result (Unit {0})
  unfolding save_files
  save_in records now (disk, err e) = (disk, err e)
  save_in records now (disk, ok none) = (disk, ok tt)
  save_in records now (disk, ok (some d)) =
      let (files, answer) = save_files records now d.files in
      (some (record d { files = files }), answer)

  abbrev some_records : List CompletedTask → Bool
  some_records [] = false
  some_records (r ∷ records) = true

  unfoldable pub save : List CompletedTask → ℕ → Disk → Disk × Result (Unit {0})
  unfolding save_in
  save records now disk = save_in records now (checked_directory (some_records records) disk)
