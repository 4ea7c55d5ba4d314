-- ===== src/TaskResults/Saving/Planning.antt =====
-- What the two loops of `save` in crates/agentplug-host/src/task_results.rs leave of the kept records.
use agentplug.Base.{
  ℕ, ◌+◌, ◌^◌, ◌≤◌, ◌≡◌, refl, ap, subst, leb, ltb, Bool, true, ◌||◌, [], ◌∷◌, Option, none, some,
  length, arith, Bool-cases, if-cases, inl, inr, ◌⊎◌,
}
use agentplug.Base.Bytes.{Bytes, bytes}
use agentplug.Base.Maps.{Text, text_eq_iff, text_key}
use agentplug.Base.Ints.{ℤ, pos, negsuc}
use agentplug.TaskResults.{
  CompletedTask, File, Files, Failure, Result, ok, err, file_name, validate_record, read_record,
}
use agentplug.TaskResults.Saving.{
  same_int, same_task, Totals, prune_entry, scan_entry, scan, Write, plan_new, plan_found,
  plan_record, names_record, strip_suffix, counted,
}
use agentplug.TaskResults.Kept.{answer_or_none, kept, Pruned, prune_if_expired-Pruned, Pruned-trans}

pub Result-cases {ℓ} :
    {A : Type ℓ} (a : Result A) → ((e : Failure) × (a ≡ err e)) ⊎ ((x : A) × (a ≡ ok x))
Result-cases (err e) = inl (e, refl)
Result-cases (ok x) = inr (x, refl)

same_int-eq : (a b : Option ℤ) → same_int a b ≡ true → a ≡ b
unfolding same_int
same_int-eq none none h = refl
same_int-eq none (some b) h = cc
same_int-eq (some (pos m)) none h = cc
same_int-eq (some (negsuc m)) none h = cc
same_int-eq (some (pos m)) (some (pos n)) h = let e : m ≡ n = ground (arith, h) in cc
same_int-eq (some (pos m)) (some (negsuc n)) h = cc
same_int-eq (some (negsuc m)) (some (pos n)) h = cc
same_int-eq (some (negsuc m)) (some (negsuc n)) h = let e : m ≡ n = ground (arith, h) in cc

same_task-eq : (a b : CompletedTask) → same_task a b ≡ true → a ≡ b
unfolding same_task
same_task-eq a b h =
    let same_schema : a.schema ≡ b.schema = ground (arith, h) in
    let same_started_ms : a.started_ms ≡ b.started_ms = ground (arith, h) in
    let same_finished_ms : a.finished_ms ≡ b.finished_ms = ground (arith, h) in
    let same_stdout_omitted_bytes : a.stdout_omitted_bytes ≡ b.stdout_omitted_bytes =
      ground (arith, h) in
    let same_stderr_omitted_bytes : a.stderr_omitted_bytes ≡ b.stderr_omitted_bytes =
      ground (arith, h) in
    let same_id : a.id ≡ b.id = (text_eq_iff a.id b.id).0 (ground (arith, h)) in
    let same_lang : a.lang ≡ b.lang = (text_eq_iff a.lang b.lang).0 (ground (arith, h)) in
    let same_stdout : a.stdout ≡ b.stdout = (text_eq_iff a.stdout b.stdout).0 (ground (arith, h)) in
    let same_stderr : a.stderr ≡ b.stderr = (text_eq_iff a.stderr b.stderr).0 (ground (arith, h)) in
    let same_exit_code : a.exit_code ≡ b.exit_code =
      same_int-eq a.exit_code b.exit_code (ground (arith, h)) in
    let same_timed_out : a.timed_out ≡ b.timed_out = ground (arith, h) in
    λ i. record {
      schema = same_schema i;
      id = same_id i;
      lang = same_lang i;
      started_ms = same_started_ms i;
      finished_ms = same_finished_ms i;
      exit_code = same_exit_code i;
      timed_out = same_timed_out i;
      stdout = same_stdout i;
      stderr = same_stderr i;
      stdout_omitted_bytes = same_stdout_omitted_bytes i;
      stderr_omitted_bytes = same_stderr_omitted_bytes i;
    }

module _ (parse_record : Bytes → Option CompletedTask) (parse_stamp : Bytes → Option ℕ)
    (print : CompletedTask → Bytes) (late : ℕ → Bool) where
  abbrev AllPruned : ℕ → Files → Files → Type 0
  AllPruned = Pruned parse_record parse_stamp

  prune_entry-Pruned :
      (now : ℕ) (name : Text) (files : Files)
      → AllPruned now files (prune_entry parse_record parse_stamp print late now name files).0
  unfolding prune_entry
  prune_entry-Pruned now name files =
      if-cases (λ (o : Files × Bool). AllPruned now files o.0)
        (names_record (strip_suffix (bytes ".json") name))
        (λ names. prune_if_expired-Pruned parse_record parse_stamp name now files)
        (λ other path. inl refl)

  scan_entry-Pruned :
      (now scanned : ℕ) (name : Text) (file : File) (files : Files) (t : Totals)
      → AllPruned now files
          (scan_entry parse_record parse_stamp print late now scanned name file files t).0
  unfolding scan_entry
  scan_entry-Pruned now scanned name file files t =
      if-cases (λ (o : Files × Result Totals). AllPruned now files o.0)
        (leb 1_024 scanned || late scanned) (λ over path. inl refl)
        (λ within. prune_entry-Pruned now name files)

  -- After a turn the loop ends with an error or goes on.
  scan_rest :
      (now scanned : ℕ) (entries files files' : Files) (answer : Result Totals)
      → AllPruned now files files'
      → ((t' : Totals)
          → AllPruned now files
              (scan parse_record parse_stamp print late now (scanned + 1) entries files' t').0)
      → AllPruned now files
          (elim answer as (λ a. Files × Result Totals) [
            | err e ↦ (files', err e)
            | ok t' ↦ scan parse_record parse_stamp print late now (scanned + 1) entries files' t'
          ]).0
  scan_rest now scanned entries files files' (err e) here rest = here
  scan_rest now scanned entries files files' (ok t') here rest = rest t'

  pub scan-Pruned :
      (now scanned : ℕ) (entries files : Files) (t : Totals)
      → AllPruned now files (scan parse_record parse_stamp print late now scanned entries files t).0
  unfolding scan
  scan-Pruned now scanned [] files t = λ path. inl refl
  scan-Pruned now scanned ((name, file) ∷ entries) files t =
      let here = scan_entry-Pruned now scanned name file files t in
      let files' =
        (scan_entry parse_record parse_stamp print late now scanned name file files t).0 in
      scan_rest now scanned entries files files'
        (scan_entry parse_record parse_stamp print late now scanned name file files t).1 here
        (λ t'.
          Pruned-trans parse_record parse_stamp now files files' _ here
            (scan-Pruned now (scanned + 1) entries files' t'))

  -- The record that is kept for an id, by the files of the directory.
  abbrev pub keeps : Bytes → Files → Option CompletedTask
  keeps = kept parse_record parse_stamp

  write_of : Result (Totals × Option Write) → Option Write
  write_of (err e) = none
  write_of (ok (t, w)) = w

  abbrev is_full : Totals → Bool
  is_full t = ltb 512 (length t.sizes) || ltb 67_108_864 t.total_bytes

  -- What a turn of the loop over the records found out.
  abbrev pub Planned : Files → CompletedTask → Option Write → Type 0
  Planned files r none = keeps r.id files ≡ some r
  Planned files r (some w) =
      (w ≡ (file_name r.id, print r))
      × (keeps r.id files ≡ none)
      × (length (print r) ≤ 1_048_576)
      × (validate_record r r.id ≡ true)

  plan_new-Planned :
      (files : Files) (r : CompletedTask) (t t' : Totals) (w : Option Write)
      → validate_record r r.id ≡ true
      → keeps r.id files ≡ none
      → plan_new parse_record parse_stamp print late r t ≡ ok (t', w)
      → Planned files r w
  unfolding plan_new write_of
  plan_new-Planned files r t t' w valid absent e =
      elim (Bool-cases (ltb 1_048_576 (length (print r)))) [
        | inl long ↦ absurd (cc (rw long at e))
        | inr short ↦ elim (Bool-cases (leb (2 ^ 64) (t.total_bytes + length (print r)))) [
          | inl over ↦ absurd (cc (rw (short, over) at e))
          | inr under ↦
              elim (Bool-cases (is_full (counted t (file_name r.id) (length (print r))))) [
                | inl full ↦ absurd (cc (rw (short, under, full) at e))
                | inr room ↦
                    subst (Planned files r) (ap write_of (rw (short, under, room) at e))
                      (refl, absent, ground (arith, short), valid)
              ]
        ]
      ]

  pub plan_record-Planned :
      (files : Files) (r : CompletedTask) (t t' : Totals) (w : Option Write)
      → plan_record parse_record parse_stamp print late files t r ≡ ok (t', w)
      → Planned files r w
  unfolding plan_record plan_found kept answer_or_none write_of
  plan_record-Planned files r t t' w e = elim (Bool-cases (validate_record r r.id)) [
    | inl valid ↦ elim (Result-cases (read_record parse_record r.id files)) [
      | inl (f, failed) ↦ absurd (cc (rw (valid, failed) at e))
      | inr (none, absent) ↦
          plan_new-Planned files r t t' w valid (rw absent refl) (rw (valid, absent) at e)
      | inr (some x, present) ↦ elim (Bool-cases (same_task x r)) [
        | inl same ↦
            subst (Planned files r) (ap write_of (rw (valid, present, same) at e))
              (rw present (ap some (same_task-eq x r same)))
        | inr other ↦ absurd (cc (rw (valid, present, other) at e))
      ]
    ]
    | inr invalid ↦ absurd (cc (rw invalid at e))
  ]
