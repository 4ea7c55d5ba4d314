-- ===== src/TaskResults.antt =====
-- The results of finished background tasks: crates/agentplug-host/src/task_results.rs. The directory
-- `task-results` is a map from a file's name to the file. serde_json's printer and its two parsers, of a
-- whole record and of its time stamp, are parameters. The calls of the file system do not fail.
pub mod Saving
pub mod Reading
pub mod Kept
mod Examples
use agentplug.Base.{
  ℕ, ◌+◌, ◌-◌, ◌^◌, ◌==◌, leb, ltb, Bool, true, false, not, ◌&&◌, ◌||◌, List, [], ◌∷◌, ◌++◌, Option,
  none, some, if◌then◌else◌, length, all, min,
}
use agentplug.Base.Ints.{ℤ, pos, negsuc}
use agentplug.Base.Bytes.{Bytes, bytes, strip_prefix}
use agentplug.Base.Maps.{Text, text_eq, text_key, lookup, remove}

abbrev pub retention_ms : ℕ
retention_ms = 1_800_000

abbrev pub tail_bytes : ℕ
tail_bytes = 65_536

abbrev pub max_record_bytes : ℕ
max_record_bytes = 1_048_576

abbrev u64_max : ℕ
u64_max = 2 ^ 64 - 1

pub record CompletedTask : Type 0 where
  pub schema : ℕ
  pub id : Bytes
  pub lang : Bytes
  pub started_ms : ℕ
  pub finished_ms : ℕ
  pub exit_code : Option ℤ
  pub timed_out : Bool
  pub stdout : Bytes
  pub stderr : Bytes
  pub stdout_omitted_bytes : ℕ
  pub stderr_omitted_bytes : ℕ

pub record File : Type 0 where
  pub contents : Bytes
  pub is_file : Bool
  pub private : Bool

abbrev pub Files : Type 0
Files = List (Text × File)

pub record Directory : Type 0 where
  pub is_dir : Bool
  pub owned : Bool
  pub private : Bool
  pub files : Files

-- The directory, if there is one.
abbrev pub Disk : Type 0
Disk = Option Directory

pub data Failure : Type 0 where
  not_a_directory not_owned not_bounded not_private not_a_record invalid_record : Failure
  scan_bound record_bound byte_overflow byte_bound different_content too_long store_full unsafe_id :
      Failure

pub data Result {ℓ} (A : Type ℓ) : Type ℓ where
  ok : A → Result A
  err : Failure → Result A

is_id_byte : ℕ → Bool
is_id_byte c =
    (leb b'0' c && leb c b'9')
    || (leb b'a' c && leb c b'f')
    || (leb b'A' c && leb c b'F')
    || c == b'-'

id_rest : Option Bytes → Bool
id_rest none = false
id_rest (some rest) = all is_id_byte rest

pub valid_id : Bytes → Bool
unfolding is_id_byte id_rest
valid_id id = id_rest (strip_prefix (bytes "task-") id) && ltb 5 (length id) && leb (length id) 128

-- `directory.join(format!("{id}.json"))`
abbrev pub file_name : Bytes → Text
file_name id = id ++ bytes ".json"

pub checked : Directory → Disk × Result (Option Directory)
checked d =
    if not d.is_dir
    then (some d, err not_a_directory)
    else if not d.owned
    then (some d, err not_owned)
    else (some (record d { private = true }), ok (some (record d { private = true })))

abbrev pub new_directory : Directory
new_directory = record { is_dir = true; owned = true; private = true; files = [] }

pub checked_directory : Bool → Disk → Disk × Result (Option Directory)
unfolding checked
checked_directory create (some d) = checked d
checked_directory true none = checked new_directory
checked_directory false none = (none, ok none)

pub read_file : Bool → Option File → Result (Option Bytes)
read_file require_private none = ok none
read_file require_private (some file) =
    if not file.is_file || ltb max_record_bytes (length file.contents)
    then err not_bounded
    else if require_private && not file.private
    then err not_private
    else ok (some file.contents)

pub read_bytes : Text → Bool → Files → Result (Option Bytes)
unfolding read_file
read_bytes path require_private files = read_file require_private (lookup path files)

pub validate_record : CompletedTask → Bytes → Bool
unfolding valid_id
validate_record r id =
    r.schema == 1
    && text_eq r.id id
    && valid_id r.id
    && leb r.started_ms r.finished_ms
    && leb (length r.stdout) tail_bytes
    && leb (length r.stderr) tail_bytes
    && leb r.stdout_omitted_bytes (u64_max - tail_bytes)
    && leb r.stderr_omitted_bytes (u64_max - tail_bytes)

module _ (parse_record : Bytes → Option CompletedTask) where
  pub parsed : Bytes → Option CompletedTask → Result (Option CompletedTask)
  unfolding validate_record
  parsed id none = err not_a_record
  parsed id (some r) = if validate_record r id then ok (some r) else err invalid_record

  pub record_of : Bytes → Result (Option Bytes) → Result (Option CompletedTask)
  unfolding parsed
  record_of id (err e) = err e
  record_of id (ok none) = ok none
  record_of id (ok (some b)) = parsed id (parse_record b)

  pub read_record : Bytes → Files → Result (Option CompletedTask)
  unfolding record_of read_bytes
  read_record id files = record_of id (read_bytes (file_name id) true files)

module _ (parse_stamp : Bytes → Option ℕ) where
  stamp_expired : ℕ → Option ℕ → Result Bool
  stamp_expired now none = err not_a_record
  stamp_expired now (some finished) = ok (leb retention_ms (now - finished))

  pub expired : ℕ → Result (Option Bytes) → Result Bool
  unfolding stamp_expired
  expired now (err e) = err e
  expired now (ok none) = ok false
  expired now (ok (some b)) = stamp_expired now (parse_stamp b)

  pub is_true : Result Bool → Bool
  is_true (ok b) = b
  is_true (err e) = false

  pub prune_if_expired : Text → ℕ → Files → Files × Result Bool
  unfolding expired read_bytes is_true
  prune_if_expired path now files =
      let answer = expired now (read_bytes path false files) in
      (if is_true answer then remove path files else files, answer)
