-- ===== src/TaskResults/Kept.antt =====
-- What the directory keeps, as a map from a task's id to its record, and what pruning takes from it.
use agentplug.Base.{
  ℕ, ◌-◌, ◌≤◌, ◌≡◌, refl, sym, ◌∙◌, ap, subst, leb, ltb, Bool, true, false, not, ◌||◌, Option, none,
  some, if◌then◌else◌, length, arith, Bool-cases, Option-cases, if-cases, inl, inr, ◌⊎◌,
}
use agentplug.Base.Bytes.{Bytes}
use agentplug.Base.Maps.{Text, text_eq, text_eq_iff, text_key, lookup, lookup-remove}
use agentplug.TaskResults.{
  CompletedTask, File, Files, Disk, Result, ok, err, file_name, read_file, read_bytes,
  validate_record, parsed, record_of, read_record, stamp_expired, expired, is_true,
  prune_if_expired, retention_ms,
}

unfoldable pub answer_or_none : Result (Option CompletedTask) → Option CompletedTask
answer_or_none (ok o) = o
answer_or_none (err e) = none

-- The directory is one that the store takes.
abbrev pub IsUsable : Disk → Type 0
IsUsable none = Unit {0}
IsUsable (some d) = (d.is_dir ≡ true) × (d.owned ≡ true)

-- A record that is not past its retention.
unfoldable pub fresh : ℕ → Option CompletedTask → Option CompletedTask
fresh now none = none
fresh now (some r) = if leb retention_ms (now - r.finished_ms) then none else some r

module _ (parse_record : Bytes → Option CompletedTask) (parse_stamp : Bytes → Option ℕ) where
  abbrev kept_file : Bytes → Option File → Option CompletedTask
  kept_file id o = answer_or_none (record_of parse_record id (read_file true o))

  unfoldable pub kept : Bytes → Files → Option CompletedTask
  kept id files = answer_or_none (read_record parse_record id files)

  unfoldable pub kept_on : Bytes → Disk → Option CompletedTask
  kept_on id none = none
  kept_on id (some d) = kept id d.files

  -- The time stamp is the record's own.
  abbrev pub SameStamp : Type 0
  SameStamp =
      (b : Bytes) (r : CompletedTask) → parse_record b ≡ some r → parse_stamp b ≡ some r.finished_ms

  abbrev IsExpired : ℕ → Option File → Type 0
  IsExpired now o = expired parse_stamp now (read_file false o) ≡ ok true

  -- Each file is still there or was past its retention.
  abbrev pub Pruned : ℕ → Files → Files → Type 0
  Pruned now files files' =
      (path : Text)
      → (lookup path files' ≡ lookup path files)
        ⊎ ((lookup path files' ≡ none) × IsExpired now (lookup path files))

  pub is_true-ok : (a : Result Bool) → is_true parse_stamp a ≡ true → a ≡ ok true
  unfolding is_true
  is_true-ok (ok b) h = ap ok h
  is_true-ok (err e) h = cc

  pub prune_if_expired-Pruned :
      (path : Text) (now : ℕ) (files : Files)
      → Pruned now files (prune_if_expired parse_stamp path now files).0
  unfolding prune_if_expired read_bytes
  prune_if_expired-Pruned path now files other =
      if-cases
        (λ (f : Files).
          (lookup other f ≡ lookup other files)
          ⊎ ((lookup other f ≡ none) × IsExpired now (lookup other files)))
        (is_true parse_stamp (expired parse_stamp now (read_file false (lookup path files))))
        (λ due. elim (Bool-cases (text_eq path other)) [
          | inl same ↦ inr (
            lookup-remove path other files ∙ rw same refl,
            subst (λ p. IsExpired now (lookup p files)) ((text_eq_iff path other).0 same)
                (is_true-ok _ due),
          )
          | inr differs ↦ inl (lookup-remove path other files ∙ rw differs refl)
        ])
        (λ young. inl refl)

  pub Pruned-trans : (now : ℕ) (f g h : Files) → Pruned now f g → Pruned now g h → Pruned now f h
  Pruned-trans now f g h first second path = elim (first path) [
    | inl same ↦ elim (second path) [
      | inl same' ↦ inl (same' ∙ same)
      | inr (gone, due) ↦ inr (gone, rw same at due)
    ]
    | inr (gone, due) ↦ elim (second path) [
      | inl same' ↦ inr (same' ∙ gone, due)
      | inr (gone', due') ↦ inr (gone', due)
    ]
  ]

  fresh_over :
      (now now' : ℕ) (r : CompletedTask)
      → now ≤ now'
      → leb 1_800_000 (now - r.finished_ms) ≡ true
      → fresh now' (some r) ≡ none
  unfolding fresh
  fresh_over now now' r later over =
      let over' : leb 1_800_000 (now' - r.finished_ms) ≡ true = ground (arith, later, over) in
      rw over' refl

  -- A record whose stamp is past the retention stays past it.
  fresh_parsed :
      (now now' : ℕ) (id b : Bytes)
      → SameStamp
      → now ≤ now'
      → stamp_expired parse_stamp now (parse_stamp b) ≡ ok true
      → fresh now' (answer_or_none (parsed parse_record id (parse_record b))) ≡ none
  unfolding fresh answer_or_none parsed stamp_expired is_true
  fresh_parsed now now' id b same later due = elim (Option-cases (parse_record b)) [
    | inl bad ↦ rw bad refl
    | inr (r, reads) ↦ rw reads (
        if-cases (λ (a : Result (Option CompletedTask)). fresh now' (answer_or_none a) ≡ none)
          (validate_record r id)
          (λ valid.
            fresh_over now now' r later (ap (is_true parse_stamp) (rw (same b r reads) at due)))
          (λ invalid. refl))
  ]

  expired-none :
      (now now' : ℕ) (id : Bytes) (o : Option File)
      → SameStamp
      → now ≤ now'
      → IsExpired now o
      → fresh now' (kept_file id o) ≡ none
  unfolding fresh answer_or_none record_of read_file expired
  expired-none now now' id none same later due = refl
  expired-none now now' id (some file) same later due =
      elim (Bool-cases (not file.is_file || ltb 1_048_576 (length file.contents))) [
        | inl big ↦ absurd (cc (rw big at due))
        | inr small ↦ rw small (
            if-cases
              (λ (a : Result (Option Bytes)).
                fresh now' (answer_or_none (record_of parse_record id a)) ≡ none)
              (not file.private) (λ public. refl)
              (λ hidden. fresh_parsed now now' id file.contents same later (rw small at due)))
      ]

  -- Pruning changes nothing that is still within its retention.
  pub Pruned-fresh :
      (now now' : ℕ) (id : Bytes) (files files' : Files)
      → SameStamp
      → now ≤ now'
      → Pruned now files files'
      → fresh now' (kept id files') ≡ fresh now' (kept id files)
  unfolding kept read_record read_bytes fresh answer_or_none record_of read_file
  Pruned-fresh now now' id files files' same later pruned = elim (pruned (file_name id)) [
    | inl alike ↦ rw alike refl
    | inr (gone, due) ↦
        rw gone (sym (expired-none now now' id (lookup (file_name id) files) same later due))
  ]

  abbrev YoungIn : ℕ → Option CompletedTask → Type 0
  YoungIn now none = Unit {0}
  YoungIn now (some x) = leb 1_800_000 (now - x.finished_ms) ≡ false

  pub fresh-some :
      (now : ℕ) (o : Option CompletedTask) (r : CompletedTask)
      → fresh now o ≡ some r
      → (o ≡ some r) × (leb 1_800_000 (now - r.finished_ms) ≡ false)
  unfolding fresh
  fresh-some now none r e = absurd (cc e)
  fresh-some now (some x) r e = elim (Bool-cases (leb 1_800_000 (now - x.finished_ms))) [
    | inl over ↦ absurd (cc (rw over at e))
    | inr young ↦
        let is : some x ≡ some r = (rw young at e) in
        (is, subst (λ (o : Option CompletedTask). YoungIn now o) is young)
  ]

  parsed-some :
      (now : ℕ) (id b : Bytes) (r : CompletedTask)
      → SameStamp
      → answer_or_none (parsed parse_record id (parse_record b)) ≡ some r
      → leb 1_800_000 (now - r.finished_ms) ≡ false
      → (stamp_expired parse_stamp now (parse_stamp b) ≡ ok false)
        × (parsed parse_record id (parse_record b) ≡ ok (some r))
  unfolding answer_or_none parsed stamp_expired
  parsed-some now id b r same e young = elim (Option-cases (parse_record b)) [
    | inl bad ↦ absurd (cc (rw bad at e))
    | inr (x, reads) ↦ elim (Bool-cases (validate_record x id)) [
      | inl valid ↦
          let is : some x ≡ some r = (rw (reads, valid) at e) in
          let stamp : parse_stamp b ≡ some r.finished_ms = same b r (reads ∙ is) in
          (rw (stamp, young) refl, rw (reads, valid) (ap ok is))
      | inr invalid ↦ absurd (cc (rw (reads, invalid) at e))
    ]
  ]

  file-some :
      (now : ℕ) (id : Bytes) (o : Option File) (r : CompletedTask)
      → SameStamp
      → kept_file id o ≡ some r
      → leb 1_800_000 (now - r.finished_ms) ≡ false
      → (expired parse_stamp now (read_file false o) ≡ ok false)
        × (record_of parse_record id (read_file true o) ≡ ok (some r))
  unfolding answer_or_none record_of read_file expired
  file-some now id none r same e young = absurd (cc e)
  file-some now id (some file) r same e young =
      elim (Bool-cases (not file.is_file || ltb 1_048_576 (length file.contents))) [
        | inl big ↦ absurd (cc (rw big at e))
        | inr small ↦ elim (Bool-cases (not file.private)) [
          | inl open_to_others ↦ absurd (cc (rw (small, open_to_others) at e))
          | inr hidden ↦
              rw (small, hidden)
                (parsed-some now id file.contents r same (rw (small, hidden) at e) young)
        ]
      ]

  -- What is kept and fresh is not pruned, and is read.
  pub fresh-reads :
      (now : ℕ) (id : Bytes) (files : Files) (r : CompletedTask)
      → SameStamp
      → fresh now (kept id files) ≡ some r
      → (prune_if_expired parse_stamp (file_name id) now files ≡ (files, ok false))
        × (read_record parse_record id files ≡ ok (some r))
  unfolding kept read_record read_bytes prune_if_expired is_true
  fresh-reads now id files r same e =
      let (held, young) = fresh-some now (kept id files) r e in
      let (still, reads) = file-some now id (lookup (file_name id) files) r same held young in
      (rw still refl, reads)
