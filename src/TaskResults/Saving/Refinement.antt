-- ===== src/TaskResults/Saving/Refinement.antt =====
-- `save` of crates/agentplug-host/src/task_results.rs against a map from an id to its record.
use mathlib.Core.List.{append_cancel_right}
use agentplug.Base.{
  ℕ, ◌≤◌, ◌≡◌, refl, sym, ◌∙◌, ap, subst, ltb, Bool, true, false, List, [], ◌∷◌, Option, none, some,
  if◌then◌else◌, length, arith, Bool-cases, if-cases, All, inl, inr,
}
use agentplug.Base.Bytes.{Bytes, bytes}
use agentplug.Base.Maps.{text_eq, text_eq_iff, text_key, lookup, insert, lookup-insert}
use agentplug.TaskResults.{
  CompletedTask, File, Files, Result, ok, err, file_name, read_file, read_bytes, validate_record,
  parsed, record_of, read_record,
}
use agentplug.TaskResults.Saving.{Totals, Write, plan_record, and_write, plan, write_all}
use agentplug.TaskResults.Kept.{answer_or_none, kept}
use agentplug.TaskResults.Saving.Planning.{Result-cases, Planned, plan_record-Planned}

pub same_name : (a b : Bytes) → text_eq (file_name a) (file_name b) ≡ text_eq a b
same_name a b = elim (Bool-cases (text_eq a b)) [
  | inl same ↦
      (text_eq_iff (file_name a) (file_name b)).1 (ap file_name ((text_eq_iff a b).0 same))
      ∙ sym same
  | inr differs ↦ elim (Bool-cases (text_eq (file_name a) (file_name b))) [
    | inl alike ↦ absurd (
        cc (
          differs,
          (text_eq_iff a b).1 (
              append_cancel_right a b (bytes ".json")
                ((text_eq_iff (file_name a) (file_name b)).0 alike)),
        ))
    | inr unlike ↦ unlike ∙ sym differs
  ]
]

lookup-write :
    (a b : Bytes) (file : File) (files : Files)
    → lookup (file_name b) (insert (file_name a) file files)
      ≡ (if text_eq a b then some file else lookup (file_name b) files)
lookup-write a b file files =
    lookup-insert (file_name a) (file_name b) file files ∙ rw (same_name a b) refl

-- What the records of a call make of what is kept for an id: the last of them with the id, if any.
unfoldable pub last_of : Bytes → List CompletedTask → Option CompletedTask → Option CompletedTask
last_of id [] old = old
last_of id (r ∷ records) old = last_of id records (if text_eq r.id id then some r else old)

module _ (parse_record : Bytes → Option CompletedTask) (parse_stamp : Bytes → Option ℕ)
    (print : CompletedTask → Bytes) (late : ℕ → Bool) where
  abbrev held_in : Bytes → Files → Option CompletedTask
  held_in = kept parse_record parse_stamp

  -- The printed record is read back as itself.
  abbrev pub IsReadable : CompletedTask → Type 0
  IsReadable r = parse_record (print r) ≡ some r

  -- A written record is kept, and no other changes.
  write-held :
      (r : CompletedTask) (id : Bytes) (files : Files)
      → parse_record (print r) ≡ some r
      → validate_record r r.id ≡ true
      → length (print r) ≤ 1_048_576
      → held_in id (
          insert
            (file_name r.id)
            (record { contents = print r; is_file = true; private = true })
            files)
        ≡ (if text_eq r.id id then some r else held_in id files)
  unfolding kept read_record read_bytes answer_or_none record_of read_file parsed
  write-held r id files reads valid short =
      let file : File = record { contents = print r; is_file = true; private = true } in
      elim (Bool-cases (text_eq r.id id)) [
        | inl same ↦
            let here : lookup (file_name id) (insert (file_name r.id) file files) ≡ some file =
              lookup-write r.id id file files ∙ rw same refl in
            let bounded : ltb 1_048_576 (length (print r)) ≡ false = ground (arith, short) in
            let valid' : validate_record r id ≡ true =
              subst (λ i. validate_record r i ≡ true) ((text_eq_iff r.id id).0 same) valid in
            rw (here, same, bounded, reads, valid') refl
        | inr differs ↦
            let there : lookup (file_name id) (insert (file_name r.id) file files)
                ≡ lookup (file_name id) files =
              lookup-write r.id id file files ∙ rw differs refl in
            rw (there, differs) refl
      ]

  writes_of : Result (List Write) → List Write
  writes_of (ok writes) = writes
  writes_of (err e) = []

  -- The files that the planned writes change still keep what the directory kept.
  abbrev Extends : Files → Files → Type 0
  Extends files g =
      (id : Bytes) (x : CompletedTask) → held_in id files ≡ some x → held_in id g ≡ some x

  write-Extends :
      (r : CompletedTask) (files g : Files)
      → parse_record (print r) ≡ some r
      → validate_record r r.id ≡ true
      → length (print r) ≤ 1_048_576
      → held_in r.id files ≡ none
      → Extends files g
      → Extends files (
          insert (file_name r.id) (record { contents = print r; is_file = true; private = true }) g)
  write-Extends r files g reads valid short absent extends id x held =
      write-held r id g reads valid short
      ∙ if-cases (λ o. o ≡ some x) (text_eq r.id id)
          (λ same.
            absurd (
              cc (held, subst (λ i. held_in i files ≡ none) ((text_eq_iff r.id id).0 same) absent)))
          (λ differs. extends id x held)

  -- One record, when the rest of the plan does what it says.
  write-last_of :
      (r : CompletedTask) (records : List CompletedTask) (files g : Files) (w : Option Write)
      (ws : List Write) (id : Bytes)
      → IsReadable r
      → Planned parse_record parse_stamp print late files r w
      → Extends files g
      → ((g' : Files)
          → Extends files g'
          → held_in id (write_all parse_record parse_stamp print late ws g')
            ≡ last_of id records (held_in id g'))
      → held_in id (
          write_all parse_record parse_stamp print late
            (and_write parse_record parse_stamp print late w ws)
            g)
        ≡ last_of id records (if text_eq r.id id then some r else held_in id g)
  unfolding write_all and_write
  write-last_of r records files g none ws id reads there extends rest =
      rest g extends
      ∙ ap (last_of id records) (
          if-cases (λ o. held_in id g ≡ o) (text_eq r.id id)
            (λ same.
              subst (λ i. held_in i g ≡ some r) ((text_eq_iff r.id id).0 same)
                (extends r.id r there))
            (λ differs. refl))
  write-last_of r records files g (some w) ws id reads (is, absent, short, valid) extends rest =
      subst
        (λ (w' : Write).
          held_in id (write_all parse_record parse_stamp print late (w' ∷ ws) g)
          ≡ last_of id records (if text_eq r.id id then some r else held_in id g))
        (sym is)
        (rest _ (write-Extends r files g reads valid short absent extends)
          ∙ ap (last_of id records) (write-held r id g reads valid short))

  pub plan-last_of :
      (records : List CompletedTask) (files g : Files) (t : Totals) (writes : List Write)
      (id : Bytes)
      → All IsReadable records
      → plan parse_record parse_stamp print late files t records ≡ ok writes
      → Extends files g
      → held_in id (write_all parse_record parse_stamp print late writes g)
        ≡ last_of id records (held_in id g)
  unfolding plan write_all and_write last_of writes_of
  plan-last_of [] files g t writes id reads e extends =
      subst (λ ws. held_in id (write_all parse_record parse_stamp print late ws g) ≡ held_in id g)
        (ap writes_of e) refl
  plan-last_of (r ∷ records) files g t writes id reads e extends =
      elim (Result-cases (plan_record parse_record parse_stamp print late files t r)) [
        | inl (f, failed) ↦ absurd (cc (rw (plan, failed) at e))
        | inr ((t', w), here) ↦
            elim (Result-cases (plan parse_record parse_stamp print late files t' records)) [
              | inl (f, failed) ↦ absurd (cc (rw (plan, here, failed) at e))
              | inr (ws, rest) ↦
                  subst
                    (λ writes'.
                      held_in id (write_all parse_record parse_stamp print late writes' g)
                      ≡ last_of id records (if text_eq r.id id then some r else held_in id g))
                    (ap writes_of (rw (plan, here, rest) at e))
                    (write-last_of r records files g w ws id reads.0
                      (plan_record-Planned parse_record parse_stamp print late files r t t' w here)
                      extends
                      (λ g' extends'. plan-last_of records files g' t' ws id reads.1 rest extends'))
            ]
      ]
