-- ===== src/TaskResults/Reading/Store.antt =====
-- What `output` and `remove` of crates/agentplug-host/src/task_results.rs answer of the kept records.
use agentplug.Base.{
  ℕ, ◌≤◌, ◌≡◌, refl, sym, ◌∙◌, ap, subst, Bool, true, false, not, List, Option, none, some,
  if◌then◌else◌, Bool-cases, arith, if-cases, All, inl, inr,
}
use agentplug.Base.Bytes.{Bytes}
use agentplug.Base.Maps.{text_eq, text_eq_iff, text_key, lookup, remove, lookup-remove}
use agentplug.TaskResults.{
  CompletedTask, Files, Disk, Result, ok, err, valid_id, file_name, checked_directory, checked,
  read_record, read_bytes, record_of, read_file,
}
use agentplug.TaskResults.Saving.{save}
use agentplug.TaskResults.Saving.Refinement.{last_of, same_name}
use agentplug.TaskResults.Saving.Store.{save-refines, save-IsUsable}
use agentplug.TaskResults.Kept.{
  answer_or_none, fresh, fresh-some, kept, kept_on, IsUsable, fresh-reads,
}
use agentplug.TaskResults.Reading.{
  reply_of, read_reply, unless_pruned, output_files, output_in, output, remove_found, remove_files,
  remove_in, remove_task,
}

lookup-removed :
    (a b : Bytes) (files : Files)
    → lookup (file_name b) (remove (file_name a) files)
      ≡ (if text_eq a b then none else lookup (file_name b) files)
lookup-removed a b files = lookup-remove (file_name a) (file_name b) files ∙ rw (same_name a b) refl

abbrev pub is_some : Option CompletedTask → Bool
is_some none = false
is_some (some r) = true

was_of : Result Bool → Bool
was_of (ok was) = was
was_of (err e) = false

module _ (parse_record : Bytes → Option CompletedTask) (parse_stamp : Bytes → Option ℕ)
    (stamps : (b : Bytes) (r : CompletedTask)
      → parse_record b ≡ some r
      → parse_stamp b ≡ some r.finished_ms) where
  module _ (lossy : Bytes → Bytes) where
    output-reads :
        (id : Bytes) (max_bytes now : ℕ) (disk : Disk) (r : CompletedTask)
        → valid_id id ≡ true
        → IsUsable disk
        → fresh now (kept_on parse_record parse_stamp id disk) ≡ some r
        → (output lossy parse_record parse_stamp id max_bytes now disk).1
          ≡ ok (some (reply_of lossy max_bytes r))
    unfolding output output_in output_files unless_pruned read_reply kept_on checked_directory
        checked
    output-reads id max_bytes now none r valid usable held =
        absurd (cc (fresh-some parse_record parse_stamp now none r held).0)
    output-reads id max_bytes now (some d) r valid usable held =
        let (unpruned, reads) = fresh-reads parse_record parse_stamp now id d.files r stamps held in
        let is_dir : not d.is_dir ≡ false = ground (arith, usable) in
        let owned : not d.owned ≡ false = ground (arith, usable) in
        rw (valid, is_dir, owned, unpruned, reads) refl

    -- A record that a `save` without an error leaves within its retention is what `output` answers with
    -- from then on: the saved record, or one kept from before. Each saved record that is printed is read back as itself,
    -- and the time stamp that is read of a record is its own.
    pub save-output :
        (print : CompletedTask → Bytes) (late : ℕ → Bool) (records : List CompletedTask)
        (id : Bytes) (max_bytes now now' : ℕ) (disk : Disk) (r : CompletedTask)
        → All (λ r. parse_record (print r) ≡ some r) records
        → (save parse_record parse_stamp print late records now disk).1 ≡ ok tt
        → now ≤ now'
        → valid_id id ≡ true
        → fresh now' (last_of id records (kept_on parse_record parse_stamp id disk)) ≡ some r
        → (output lossy parse_record parse_stamp id max_bytes now'
            (save parse_record parse_stamp print late records now disk).0).1
          ≡ ok (some (reply_of lossy max_bytes r))
    save-output print late records id max_bytes now now' disk r reads done later valid held =
        output-reads id max_bytes now' _ r valid
          (save-IsUsable parse_record parse_stamp print late records now disk done)
          (save-refines parse_record parse_stamp print late stamps records now now' id disk reads
              done later
            ∙ held)

module _ (parse_record : Bytes → Option CompletedTask) (parse_stamp : Bytes → Option ℕ) where
  remove_found-keeps :
      (id other : Bytes) (files : Files) (was : Bool) (a : Result (Option CompletedTask))
      → read_record parse_record id files ≡ a
      → (remove_found parse_record id files a).1 ≡ ok was
      → (kept parse_record parse_stamp other (remove_found parse_record id files a).0
          ≡ (if text_eq id other then none else kept parse_record parse_stamp other files))
        × (was ≡ is_some (kept parse_record parse_stamp id files))
  unfolding remove_found kept answer_or_none read_record read_bytes record_of read_file was_of
  remove_found-keeps id other files was (err e) found done = absurd (cc done)
  remove_found-keeps id other files was (ok none) found done =
      let empty : kept parse_record parse_stamp id files ≡ none = rw found refl in
      (
        if-cases (λ o. kept parse_record parse_stamp other files ≡ o) (text_eq id other)
            (λ same.
              subst (λ i. kept parse_record parse_stamp i files ≡ none)
                ((text_eq_iff id other).0 same) empty)
            (λ differs. refl),
        rw empty (sym (ap was_of done)),
      )
  remove_found-keeps id other files was (ok (some r)) found done =
      let there = lookup-removed id other files in
      (
        elim (Bool-cases (text_eq id other)) [
          | inl same ↦ rw (there, same) refl
          | inr differs ↦ rw (there, differs) refl
        ],
        rw found (sym (ap was_of done)),
      )

  -- `remove` that reports no error takes the record of its id and no other, and says whether there was one.
  pub remove-refines :
      (id other : Bytes) (disk : Disk) (was : Bool)
      → (remove_task parse_record id disk).1 ≡ ok was
      → (kept_on parse_record parse_stamp other (remove_task parse_record id disk).0
          ≡ (if text_eq id other then none else kept_on parse_record parse_stamp other disk))
        × (was ≡ is_some (kept_on parse_record parse_stamp id disk))
  unfolding remove_task remove_in remove_files kept_on checked_directory checked was_of
  remove-refines id other none was done = elim (Bool-cases (valid_id id)) [
    | inl valid ↦ rw valid (
      if-cases (λ (o : Option CompletedTask). none ≡ o) (text_eq id other) (λ same. refl)
          (λ differs. refl),
      sym (ap was_of (rw valid at done)),
    )
    | inr unsafe ↦ absurd (cc (rw unsafe at done))
  ]
  remove-refines id other (some d) was done = elim (Bool-cases (valid_id id)) [
    | inr unsafe ↦ absurd (cc (rw unsafe at done))
    | inl valid ↦ elim (Bool-cases (not d.is_dir)) [
      | inl not_dir ↦ absurd (cc (rw (valid, not_dir) at done))
      | inr directory ↦ elim (Bool-cases (not d.owned)) [
        | inl foreign ↦ absurd (cc (rw (valid, directory, foreign) at done))
        | inr own ↦
            rw (valid, directory, own)
              (remove_found-keeps id other d.files was (read_record parse_record id d.files) refl
                (rw (valid, directory, own) at done))
      ]
    ]
  ]
