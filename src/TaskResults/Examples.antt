-- ===== src/TaskResults/Examples.antt =====
-- Concrete task results of crates/agentplug-host/src/task_results.rs.
use agentplug.Base.{
  ℕ, ◌≡◌, refl, Bool, true, false, [], ◌∷◌, Option, none, some, if◌then◌else◌, arith, Bool-cases,
  inl, inr, ap,
}
use agentplug.Base.Ints.{pos}
use agentplug.Base.Bytes.{Bytes, bytes}
use agentplug.Base.Maps.{text_eq, lookup, insert}
use agentplug.TaskResults.{
  CompletedTask, Disk, ok, valid_id, checked_directory, validate_record, read_record,
}
use agentplug.TaskResults.Saving.{save}
use agentplug.TaskResults.Saving.Refinement.{last_of}
use agentplug.TaskResults.Saving.Store.{save-refines}
use agentplug.TaskResults.Kept.{fresh, kept_on}
use agentplug.TaskResults.Reading.{reply_of, output, remove_task}
use agentplug.TaskResults.Reading.Store.{is_some, save-output, remove-refines}

abbrev task : CompletedTask
task = record {
  schema = 1;
  id = bytes "task-1a";
  lang = bytes "js";
  started_ms = 10;
  finished_ms = 20;
  exit_code = some (pos 0);
  timed_out = false;
  stdout = bytes "hello";
  stderr = [];
  stdout_omitted_bytes = 0;
  stderr_omitted_bytes = 3;
}

-- A printer and two parsers that know the texts of these records only.
abbrev print_task : CompletedTask → Bytes
print_task r = r.id

abbrev read_task : Bytes → Option CompletedTask
read_task b = if text_eq b (bytes "task-1a") then some task else none

abbrev read_finished : Bytes → Option ℕ
read_finished b = if text_eq b (bytes "task-1a") then some 20 else none

abbrev in_time : ℕ → Bool
in_time n = false

abbrev as_is : Bytes → Bytes
as_is t = t

abbrev finished_of : Option CompletedTask → Option ℕ
finished_of none = none
finished_of (some r) = some r.finished_ms

stamps :
    (b : Bytes) (r : CompletedTask) → read_task b ≡ some r → read_finished b ≡ some r.finished_ms
stamps b r e = elim (Bool-cases (text_eq b (bytes "task-1a"))) [
  | inl known ↦ let same : some task ≡ some r = (rw known at e) in rw known (ap finished_of same)
  | inr unknown ↦ absurd (cc (rw unknown at e))
]

abbrev saved : Disk
saved = (save read_task read_finished print_task in_time (task ∷ []) 25 none).0

saved_ok : (save read_task read_finished print_task in_time (task ∷ []) 25 none).1 ≡ ok tt
unfolding save lookup insert checked_directory validate_record read_record
saved_ok = refl

valid_task : valid_id (bytes "task-1a") ≡ true
unfolding valid_id
valid_task = refl

held :
    fresh 30 (
      last_of
        (bytes "task-1a")
        (task ∷ [])
        (kept_on read_task read_finished (bytes "task-1a") none))
    ≡ some task
unfolding fresh last_of kept_on
held = refl

removed : (remove_task read_task (bytes "task-1a") saved).1 ≡ ok true
unfolding remove_task save valid_id checked_directory read_record lookup insert
removed = refl

save-refines_example :
    fresh 30 (kept_on read_task read_finished (bytes "task-1a") saved)
    ≡ fresh 30 (
        last_of
          (bytes "task-1a")
          (task ∷ [])
          (kept_on read_task read_finished (bytes "task-1a") none))
save-refines_example =
    save-refines read_task read_finished print_task in_time stamps (task ∷ []) 25 30
      (bytes "task-1a") none (refl, tt) saved_ok (omega arith)

save-output_example :
    (output as_is read_task read_finished (bytes "task-1a") 3 30 saved).1
    ≡ ok (some (reply_of as_is 3 task))
save-output_example =
    save-output read_task read_finished stamps as_is print_task in_time (task ∷ [])
      (bytes "task-1a") 3 25 30 none task (refl, tt) saved_ok (omega arith) valid_task held

remove-refines_example :
    (kept_on read_task read_finished
        (bytes "task-1a")
        (remove_task read_task (bytes "task-1a") saved).0
      ≡ (if text_eq (bytes "task-1a") (bytes "task-1a")
          then none
          else kept_on read_task read_finished (bytes "task-1a") saved))
    × (true ≡ is_some (kept_on read_task read_finished (bytes "task-1a") saved))
remove-refines_example =
    remove-refines read_task read_finished (bytes "task-1a") (bytes "task-1a") saved true removed
