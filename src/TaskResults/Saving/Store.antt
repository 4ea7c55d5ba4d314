-- ===== src/TaskResults/Saving/Store.antt =====
-- The task results as a map from an id to a record that a retention ends: what `save` in
-- crates/agentplug-host/src/task_results.rs does to it.
use agentplug.Base.{
  ℕ, ◌≤◌, ◌≡◌, refl, ◌∙◌, ap, Bool, not, List, [], ◌∷◌, Option, none, some, Bool-cases, All, arith,
  inl, inr,
}
use agentplug.Base.Bytes.{Bytes}
use agentplug.Base.Maps.{text_eq, text_key, lookup}
use agentplug.TaskResults.{
  CompletedTask, Files, Directory, Disk, Result, ok, err, checked_directory, checked, new_directory,
  read_record, read_bytes, record_of, read_file,
}
use agentplug.TaskResults.Saving.{Totals, plan, written, planned, save_files, save_in, save}
use agentplug.TaskResults.Kept.{answer_or_none, fresh, kept, kept_on, IsUsable, Pruned-fresh}
use agentplug.TaskResults.Saving.Planning.{Result-cases, scan-Pruned}
use agentplug.TaskResults.Saving.Refinement.{last_of, plan-last_of}

last_of-fresh :
    (now : ℕ) (id : Bytes) (records : List CompletedTask) (o o' : Option CompletedTask)
    → fresh now o ≡ fresh now o'
    → fresh now (last_of id records o) ≡ fresh now (last_of id records o')
unfolding last_of
last_of-fresh now id [] o o' e = e
last_of-fresh now id (r ∷ records) o o' e = elim (Bool-cases (text_eq r.id id)) [
  | inl same ↦ rw same refl
  | inr differs ↦ rw differs (last_of-fresh now id records o o' e)
]

module _ (parse_record : Bytes → Option CompletedTask) (parse_stamp : Bytes → Option ℕ)
    (print : CompletedTask → Bytes) (late : ℕ → Bool) where
  save_in-IsUsable :
      (records : List CompletedTask) (now : ℕ) (d : Directory)
      → (save_in parse_record parse_stamp print late records now (checked d)).1 ≡ ok tt
      → IsUsable (save_in parse_record parse_stamp print late records now (checked d)).0
  unfolding save_in checked
  save_in-IsUsable records now d done = elim (Bool-cases (not d.is_dir)) [
    | inl other ↦ absurd (cc (rw other at done))
    | inr directory ↦ elim (Bool-cases (not d.owned)) [
      | inl foreign ↦ absurd (cc (rw (directory, foreign) at done))
      | inr own ↦ rw (directory, own) (ground (arith, directory), ground (arith, own))
    ]
  ]

  pub save-IsUsable :
      (records : List CompletedTask) (now : ℕ) (disk : Disk)
      → (save parse_record parse_stamp print late records now disk).1 ≡ ok tt
      → IsUsable (save parse_record parse_stamp print late records now disk).0
  unfolding save checked_directory save_in
  save-IsUsable records now (some d) done = save_in-IsUsable records now d done
  save-IsUsable [] now none done = tt
  save-IsUsable (r ∷ records) now none done = save_in-IsUsable (r ∷ records) now new_directory done

  abbrev held_in : Bytes → Files → Option CompletedTask
  held_in = kept parse_record parse_stamp

  held-empty : (id : Bytes) → held_in id [] ≡ none
  unfolding kept answer_or_none read_record read_bytes record_of read_file lookup
  held-empty id = refl

  module _
      (stamps : (b : Bytes) (r : CompletedTask)
        → parse_record b ≡ some r
        → parse_stamp b ≡ some r.finished_ms) where
    planned-fresh :
        (records : List CompletedTask) (now now' : ℕ) (id : Bytes) (files : Files)
        (s : Files × Result Totals)
        → All (λ r. parse_record (print r) ≡ some r) records
        → fresh now' (held_in id s.0) ≡ fresh now' (held_in id files)
        → (planned parse_record parse_stamp print late records s).1 ≡ ok tt
        → fresh now' (held_in id (planned parse_record parse_stamp print late records s).0)
          ≡ fresh now' (last_of id records (held_in id files))
    unfolding planned written
    planned-fresh records now now' id files (files', err e) reads alike done = absurd (cc done)
    planned-fresh records now now' id files (files', ok t) reads alike done =
        elim (Result-cases (plan parse_record parse_stamp print late files' t records)) [
          | inl (f, failed) ↦ absurd (cc (rw failed at done))
          | inr (writes, found) ↦ rw found (
              ap (fresh now') (
                plan-last_of parse_record parse_stamp print late records files' files' t writes id
                  reads found (λ i x held. held))
              ∙ last_of-fresh now' id records (held_in id files') (held_in id files) alike)
        ]

    save_files-fresh :
        (records : List CompletedTask) (now now' : ℕ) (id : Bytes) (files : Files)
        → All (λ r. parse_record (print r) ≡ some r) records
        → (save_files parse_record parse_stamp print late records now files).1 ≡ ok tt
        → now ≤ now'
        → fresh now'
            (held_in id (save_files parse_record parse_stamp print late records now files).0)
          ≡ fresh now' (last_of id records (held_in id files))
    unfolding save_files
    save_files-fresh records now now' id files reads done later =
        planned-fresh records now now' id files _ reads
          (Pruned-fresh parse_record parse_stamp now now' id files _ stamps later
            (scan-Pruned parse_record parse_stamp print late now 0 files files _))
          done

    save_in-fresh :
        (records : List CompletedTask) (now now' : ℕ) (id : Bytes) (d : Directory)
        → All (λ r. parse_record (print r) ≡ some r) records
        → (save_in parse_record parse_stamp print late records now (checked d)).1 ≡ ok tt
        → now ≤ now'
        → fresh now' (
            kept_on parse_record parse_stamp id
              (save_in parse_record parse_stamp print late records now (checked d)).0)
          ≡ fresh now' (last_of id records (held_in id d.files))
    unfolding save_in checked kept_on
    save_in-fresh records now now' id d reads done later = elim (Bool-cases (not d.is_dir)) [
      | inl other ↦ absurd (cc (rw other at done))
      | inr directory ↦ elim (Bool-cases (not d.owned)) [
        | inl foreign ↦ absurd (cc (rw (directory, foreign) at done))
        | inr own ↦
            rw (directory, own)
              (save_files-fresh records now now' id d.files reads (rw (directory, own) at done)
                later)
      ]
    ]

    -- When `save` reports no error, then from then on each id has, within its retention, the last of the
    -- saved records with that id, or what was kept for it before if there is none. Each
    -- saved record that is printed is read back as itself, and the time stamp that is read of a record is its own.
    pub save-refines :
        (records : List CompletedTask) (now now' : ℕ) (id : Bytes) (disk : Disk)
        → All (λ r. parse_record (print r) ≡ some r) records
        → (save parse_record parse_stamp print late records now disk).1 ≡ ok tt
        → now ≤ now'
        → fresh now' (
            kept_on parse_record parse_stamp id
              (save parse_record parse_stamp print late records now disk).0)
          ≡ fresh now' (last_of id records (kept_on parse_record parse_stamp id disk))
    unfolding save checked_directory kept_on last_of save_in
    save-refines records now now' id (some d) reads done later =
        save_in-fresh records now now' id d reads done later
    save-refines [] now now' id none reads done later = refl
    save-refines (r ∷ records) now now' id none reads done later =
        save_in-fresh (r ∷ records) now now' id new_directory reads done later
        ∙ ap (λ o. fresh now' (last_of id (r ∷ records) o)) (held-empty id)
