-- ===== src/TaskResults/Reading.antt =====
-- `output` and `remove` of crates/agentplug-host/src/task_results.rs.
pub mod Store
use agentplug.Base.{
  ℕ, zero, suc, ◌+◌, ◌-◌, Bool, true, false, List, [], ◌∷◌, Option, none, some, if◌then◌else◌,
  length, min,
}
use agentplug.Base.Ints.{ℤ}
use agentplug.Base.Bytes.{Bytes}
use agentplug.Base.Maps.{text_key, remove}
use agentplug.TaskResults.{
  CompletedTask, Files, Directory, Disk, Failure, Result, ok, err, valid_id, file_name,
  checked_directory, read_record, prune_if_expired, retention_ms, unsafe_id,
}

-- The members of the reply that depend on the record; the texts as bytes. `timed_out` adds the label of
-- a task that was killed.
pub record Reply : Type 0 where
  pub exit_code : Option ℤ
  pub stdout : Bytes
  pub stderr : Bytes
  pub stdout_omitted_bytes : ℕ
  pub stderr_omitted_bytes : ℕ
  pub retention_expires_ms : ℕ
  pub timed_out : Bool

abbrev pub drop : ℕ → Bytes → Bytes
drop zero t = t
drop (suc n) [] = []
drop (suc n) (c ∷ t) = drop n t

-- `lossy` is `String::from_utf8_lossy`.
module _ (lossy : Bytes → Bytes) where
  tail : ℕ → Bytes → Bytes
  tail max_bytes t = lossy (drop (length t - max_bytes) t)

  pub reply_of : ℕ → CompletedTask → Reply
  unfolding tail
  reply_of max_bytes r = record {
    exit_code = r.exit_code;
    stdout = tail max_bytes r.stdout;
    stderr = tail max_bytes r.stderr;
    stdout_omitted_bytes = r.stdout_omitted_bytes + (length r.stdout - max_bytes);
    stderr_omitted_bytes = r.stderr_omitted_bytes + (length r.stderr - max_bytes);
    retention_expires_ms = min (r.finished_ms + retention_ms) 18_446_744_073_709_551_615;
    timed_out = r.timed_out;
  }

  module _ (parse_record : Bytes → Option CompletedTask) (parse_stamp : Bytes → Option ℕ) where
    read_reply : ℕ → Result (Option CompletedTask) → Result (Option Reply)
    unfolding reply_of
    read_reply max_bytes (err e) = err e
    read_reply max_bytes (ok none) = ok none
    read_reply max_bytes (ok (some r)) = ok (some (reply_of max_bytes r))

    unless_pruned : Bytes → ℕ → Files → Result Bool → Result (Option Reply)
    unfolding read_reply
    unless_pruned id max_bytes files (err e) = err e
    unless_pruned id max_bytes files (ok true) = ok none
    unless_pruned id max_bytes files (ok false) =
        read_reply max_bytes (read_record parse_record id files)

    -- `output` in the directory's files.
    pub output_files : Bytes → ℕ → ℕ → Files → Files × Result (Option Reply)
    unfolding unless_pruned
    output_files id max_bytes now files =
        let (files', pruned) = prune_if_expired parse_stamp (file_name id) now files in
        (files', unless_pruned id max_bytes files' pruned)

    output_in : Bytes → ℕ → ℕ → Disk × Result (Option Directory) → Disk × Result (Option Reply)
    unfolding output_files
    output_in id max_bytes now (disk, err e) = (disk, err e)
    output_in id max_bytes now (disk, ok none) = (disk, ok none)
    output_in id max_bytes now (disk, ok (some d)) =
        let (files, answer) = output_files id max_bytes now d.files in
        (some (record d { files = files }), answer)

    pub output : Bytes → ℕ → ℕ → Disk → Disk × Result (Option Reply)
    unfolding output_in
    output id max_bytes now disk =
        if valid_id id
        then output_in id max_bytes now (checked_directory false disk)
        else (disk, err unsafe_id)

module _ (parse_record : Bytes → Option CompletedTask) where
  remove_found : Bytes → Files → Result (Option CompletedTask) → Files × Result Bool
  remove_found id files (err e) = (files, err e)
  remove_found id files (ok none) = (files, ok false)
  remove_found id files (ok (some r)) = (remove (file_name id) files, ok true)

  -- `remove` in the directory's files.
  pub remove_files : Bytes → Files → Files × Result Bool
  unfolding remove_found
  remove_files id files = remove_found id files (read_record parse_record id files)

  remove_in : Bytes → Disk × Result (Option Directory) → Disk × Result Bool
  unfolding remove_files
  remove_in id (disk, err e) = (disk, err e)
  remove_in id (disk, ok none) = (disk, ok false)
  remove_in id (disk, ok (some d)) =
      let (files, answer) = remove_files id d.files in (some (record d { files = files }), answer)

  unfoldable pub remove_task : Bytes → Disk → Disk × Result Bool
  unfolding remove_in
  remove_task id disk =
      if valid_id id then remove_in id (checked_directory false disk) else (disk, err unsafe_id)
