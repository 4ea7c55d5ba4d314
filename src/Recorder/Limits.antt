-- ===== src/Recorder/Limits.antt =====
-- The limits that the recordings keep, whatever is recorded.
use agentplug.Base.{
  ℕ, ◌+◌, ◌-◌, ◌≤◌, ◌≡◌, refl, sym, ◌∙◌, ◌==◌, leb, ltb, Bool, true, not, ◌&&◌, List, [], ◌∷◌, ◌++◌,
  Option, none, some, if◌then◌else◌, count, count-append, one_if, arith, Bool-cases, if-cases,
  Option-cases, inl, inr,
}
use agentplug.Base.Bytes.{Bytes, bytes}
use agentplug.Base.Maps.{text_eq, text_key}
use agentplug.Recorder.{
  RecordedEvent, Recording, Result, NewEvent, recording_max_bytes, expire, fresh_recording,
  merge_last, repeats, sized, unsized, append_event, merge_or_append, record_in,
}

pub sizes : List RecordedEvent → ℕ
sizes [] = 0
sizes (e ∷ es) = e.size + sizes es

abbrev pub has_event_id : ℕ → RecordedEvent → Bool
has_event_id id e = e.event_id == id

-- The size of a recording is that of its events and within the limit, and each id below the next is the
-- id of exactly one event.
pub record IsKept (r : Recording) : Type 0 where
  pub summed : r.size ≡ sizes r.events
  pub within : r.size ≤ recording_max_bytes
  pub numbered : (id : ℕ) → count (has_event_id id) r.events ≡ one_if (leb 1 id && ltb id r.next_id)
  pub from_one : 1 ≤ r.next_id

sizes-append : (es fs : List RecordedEvent) → sizes (es ++ fs) ≡ sizes es + sizes fs
unfolding sizes
sizes-append [] fs = omega arith
sizes-append (e ∷ es) fs = omega (arith, sizes-append es fs)

pub fresh_recording-IsKept : (now : ℕ) → IsKept (fresh_recording now)
unfolding sizes
fresh_recording-IsKept now = record {
  summed = refl;
  within = omega arith;
  numbered = λ id. ground arith;
  from_one = omega arith;
}

pub stopped-IsKept : (r : Recording) → IsKept r → IsKept (record r { stopped = true })
stopped-IsKept r v = record {
  summed = v.summed;
  within = v.within;
  numbered = v.numbered;
  from_one = v.from_one;
}

pub expire-IsKept : (now : ℕ) (r : Recording) → IsKept r → IsKept (expire now r)
unfolding expire
expire-IsKept now r v =
    if-cases IsKept (not r.stopped && ltb 1_200_000 (now - r.started_ms))
      (λ over. stopped-IsKept r v) (λ young. v)

-- A merge changes no size and no id.
abbrev Merges : List RecordedEvent → Option (List RecordedEvent) → Type 0
Merges es none = Unit {0}
Merges es (some es') =
    (sizes es' ≡ sizes es) × ((id : ℕ) → count (has_event_id id) es' ≡ count (has_event_id id) es)

merge_last-Merges : (e : NewEvent) (es : List RecordedEvent) → Merges es (merge_last e es)
unfolding merge_last sizes
merge_last-Merges e [] = tt
merge_last-Merges e (last ∷ []) = elim (Bool-cases (repeats e last)) [
  | inl same ↦ rw same (refl, λ id. refl)
  | inr new ↦ rw new tt
]
merge_last-Merges e (x ∷ y ∷ es) = elim (Option-cases (merge_last e (y ∷ es))) [
  | inl alone ↦ rw alone tt
  | inr (es', found) ↦
      let v = (rw found at (merge_last-Merges e (y ∷ es))) in
      rw found (omega (arith, v.0), λ id. omega (arith, v.1 id))
]

module _ (print_event : RecordedEvent → Bytes) where
  append_event-IsKept :
      (event : RecordedEvent) (r : Recording)
      → event.event_id ≡ r.next_id
      → IsKept r
      → IsKept (append_event print_event event r).0
  unfolding append_event sizes
  append_event-IsKept event r next v =
      if-cases (λ (o : Recording × Result (Unit {0})). IsKept o.0)
        (ltb 524_288_000 (r.size + event.size)) (λ over. stopped-IsKept r v)
        (λ fits. record {
          summed = omega (arith, v.summed, sizes-append r.events (event ∷ []));
          within = ground (arith, fits);
          numbered = λ id. ground (
            arith,
            next,
            v.from_one,
            v.numbered id,
            count-append (has_event_id id) r.events (event ∷ []),
          );
          from_one = omega (arith, v.from_one);
        })

  merge_or_append-IsKept :
      (e : NewEvent) (now : ℕ) (r : Recording) (m : Option (List RecordedEvent))
      → IsKept r
      → Merges r.events m
      → IsKept (merge_or_append print_event e now r m).0
  unfolding merge_or_append
  merge_or_append-IsKept e now r none v same =
      append_event-IsKept (sized print_event (unsized print_event e r.next_id now)) r refl v
  merge_or_append-IsKept e now r (some es) v same = record {
    summed = v.summed ∙ sym same.0;
    within = v.within;
    numbered = λ id. same.1 id ∙ v.numbered id;
    from_one = v.from_one;
  }

  pub record_in-IsKept :
      (e : NewEvent) (now : ℕ) (r : Recording) → IsKept r → IsKept (record_in print_event e now r).0
  unfolding record_in
  record_in-IsKept e now r v =
      if-cases (λ (o : Recording × Result (Unit {0})). IsKept o.0) r.stopped (λ over. v)
        (λ live.
          merge_or_append-IsKept e now r
            (if text_eq e.kind (bytes "network") then merge_last e r.events else none) v
            (if-cases (Merges r.events) (text_eq e.kind (bytes "network"))
              (λ is. merge_last-Merges e r.events) (λ other. tt)))

  -- Recording into a stopped recording leaves it stopped.
  pub record_in-stays :
      (e : NewEvent) (now : ℕ) (r : Recording)
      → r.stopped ≡ true
      → (record_in print_event e now r).0.stopped ≡ true
  unfolding record_in
  record_in-stays e now r over =
      if-cases (λ (o : Recording × Result (Unit {0})). o.0.stopped ≡ true) r.stopped (λ is. over)
        (λ live. cc)
