-- ===== src/Recorder/Active.antt =====
-- How many recordings are active, over every sequence of the recorder's operations.
use agentplug.Base.{
  ℕ, ◌+◌, ◌-◌, ◌≤◌, ◌≡◌, refl, leb, ltb, true, not, ◌&&◌, List, [], ◌∷◌, Option, some, count, All,
  arith, Bool-cases, if-cases, ap, Option-cases, inl, inr, subst,
}
use agentplug.Base.Bytes.{Bytes}
use agentplug.Base.Maps.{text_key, lookup, insert}
use agentplug.Verbs.Json.{Value}
use agentplug.Recorder.{
  RecordedEvent, Recording, Recordings, Result, is_active, is_running, expire, expire_all,
  fresh_recording, start, start_in, stop, stop_found, record_in, record_found, record_new,
  validate_session,
}
use agentplug.Recorder.Incoming.{record_event, is_telemetry, text_member, read_event}
use agentplug.Recorder.Queries.{EventFilter, events, events_found}
use agentplug.Recorder.Limits.{
  IsKept, fresh_recording-IsKept, stopped-IsKept, expire-IsKept, record_in-IsKept, record_in-stays,
}

abbrev EntryIsKept : Bytes × Recording → Type 0
EntryIsKept (session, r) = IsKept r

-- At most ten recordings are active, and each keeps its limits.
pub record IsBounded (map : Recordings) : Type 0 where
  pub few : count is_active map ≤ 10
  pub kept : All EntryIsKept map

expire_all-kept :
    (now : ℕ) (map : Recordings) → All EntryIsKept map → All EntryIsKept (expire_all now map)
unfolding expire_all
expire_all-kept now [] v = tt
expire_all-kept now ((session, r) ∷ map) v = (expire-IsKept now r v.0, expire_all-kept now map v.1)

expire_stays : (now : ℕ) (r : Recording) → r.stopped ≡ true → (expire now r).stopped ≡ true
unfolding expire
expire_stays now r over =
    if-cases (λ (o : Recording). o.stopped ≡ true)
      (not r.stopped && ltb 1_200_000 (now - r.started_ms)) (λ late. refl) (λ early. over)

expire_all-count :
    (now : ℕ) (map : Recordings) → count is_active (expire_all now map) ≤ count is_active map
unfolding expire_all expire
expire_all-count now [] = omega arith
expire_all-count now ((session, r) ∷ map) = ground (arith, expire_all-count now map)

insert-kept :
    (k : Bytes) (r : Recording) (map : Recordings)
    → IsKept r
    → All EntryIsKept map
    → All EntryIsKept (insert k r map)
unfolding insert
insert-kept k r [] v vs = (v, tt)
insert-kept k r ((j, w) ∷ map) v vs = elim (Bool-cases (text_key.same j k)) [
  | inl is ↦ rw is (v, vs.1)
  | inr differs ↦ rw differs (vs.0, insert-kept k r map v vs.1)
]

lookup-IsKept :
    (k : Bytes) (r : Recording) (map : Recordings)
    → All EntryIsKept map
    → lookup k map ≡ some r
    → IsKept r
unfolding lookup
lookup-IsKept k r [] vs found = cc
lookup-IsKept k r ((j, w) ∷ map) vs found = elim (Bool-cases (text_key.same j k)) [
  | inl is ↦ let same = (rw is at found) in let equal : w ≡ r = cc in subst IsKept equal vs.0
  | inr differs ↦ lookup-IsKept k r map vs.1 (rw differs at found)
]

-- A recording that is put in adds one at most.
insert-count :
    (k : Bytes) (r : Recording) (map : Recordings)
    → count is_active (insert k r map) ≤ count is_active map + 1
unfolding insert
insert-count k r [] = ground arith
insert-count k r ((j, w) ∷ map) = ground (arith, insert-count k r map)

-- It adds none when the recording it replaces is active whenever it is.
replace-count :
    (k : Bytes) (r r' : Recording) (map : Recordings)
    → lookup k map ≡ some r
    → (r.stopped ≡ true → r'.stopped ≡ true)
    → count is_active (insert k r' map) ≤ count is_active map
unfolding insert lookup
replace-count k r r' [] found stays = cc
replace-count k r r' ((j, w) ∷ map) found stays = elim (Bool-cases (text_key.same j k)) [
  | inl is ↦ rw is (
      let same = (rw is at found) in
      let equal : w ≡ r = cc in ground (arith, stays, ap (λ x. x.stopped) equal))
  | inr differs ↦ rw differs (ground (arith, replace-count k r r' map (rw differs at found) stays))
]

replace-IsBounded :
    (k : Bytes) (r r' : Recording) (map : Recordings)
    → IsBounded map
    → lookup k map ≡ some r
    → (r.stopped ≡ true → r'.stopped ≡ true)
    → (IsKept r → IsKept r')
    → IsBounded (insert k r' map)
replace-IsBounded k r r' map v found stays keeps = record {
  few = omega (arith, v.few, replace-count k r r' map found stays);
  kept = insert-kept k r' map (keeps (lookup-IsKept k r map v.kept found)) v.kept;
}

expire_all-IsBounded : (now : ℕ) (map : Recordings) → IsBounded map → IsBounded (expire_all now map)
expire_all-IsBounded now map v = record {
  few = omega (arith, v.few, expire_all-count now map);
  kept = expire_all-kept now map v.kept;
}

start-IsBounded :
    (session : Bytes) (now : ℕ) (map : Recordings)
    → IsBounded map
    → IsBounded (start session now map).0
unfolding start start_in
start-IsBounded session now map v =
    let expired = expire_all-IsBounded now map v in
    if-cases (λ (o : Recordings × Result ℕ). IsBounded o.0) (validate_session session)
      (λ valid.
        if-cases (λ (o : Recordings × Result ℕ). IsBounded o.0)
          (is_running (lookup session (expire_all now map))) (λ running. expired)
          (λ idle.
            if-cases (λ (o : Recordings × Result ℕ). IsBounded o.0)
              (leb 10 (count is_active (expire_all now map))) (λ full. expired)
              (λ room. record {
                few =
                    ground (
                      arith,
                      room,
                      insert-count session (fresh_recording now) (expire_all now map),
                    );
                kept =
                    insert-kept session (fresh_recording now) (expire_all now map)
                      (fresh_recording-IsKept now) expired.kept;
              })))
      (λ invalid. v)

stop-IsBounded :
    (session : Bytes) (now : ℕ) (map : Recordings)
    → IsBounded map
    → IsBounded (stop session now map).0
unfolding stop stop_found
stop-IsBounded session now map v =
    if-cases (λ (o : Recordings × Result (ℕ × ℕ × ℕ)). IsBounded o.0) (validate_session session)
      (λ valid. elim (Option-cases (lookup session map)) [
        | inl missing ↦ rw missing v
        | inr (r, found) ↦ rw found (
            replace-IsBounded session r (record r { stopped = true }) map v found (λ over. refl)
              (stopped-IsKept r))
      ])
      (λ invalid. v)

events-IsBounded :
    (session : Bytes) (filter : EventFilter) (now : ℕ) (map : Recordings)
    → IsBounded map
    → IsBounded (events session filter now map).0
unfolding events events_found
events-IsBounded session filter now map v =
    if-cases (λ (o : Recordings × Result (List RecordedEvent)). IsBounded o.0)
      (validate_session session)
      (λ valid. elim (Option-cases (lookup session map)) [
        | inl missing ↦ rw missing v
        | inr (r, found) ↦ rw found (
            replace-IsBounded session r (expire now r) map v found (expire_stays now r)
              (expire-IsKept now r))
      ])
      (λ invalid. v)

module _ (parse : Bytes → Option Value) (print : Value → Bytes)
    (print_event : RecordedEvent → Bytes) where
  record_event-IsBounded :
      (session : Bytes) (raw : Value) (now : ℕ) (map : Recordings)
      → IsBounded map
      → IsBounded (record_event parse print print_event session raw now map).0
  unfolding record_event record_new record_found
  record_event-IsBounded session raw now map v =
      if-cases (λ (o : Recordings × Result (Unit {0})). IsBounded o.0)
        (not (validate_session session)) (λ invalid. v)
        (λ valid.
          if-cases (λ (o : Recordings × Result (Unit {0})). IsBounded o.0)
            (is_telemetry (text_member "url" raw)) (λ dropped. v)
            (λ wanted. elim (Option-cases (lookup session map)) [
              | inl missing ↦ rw missing v
              | inr (r, found) ↦
                  let e = read_event parse print raw in
                  rw found (
                    replace-IsBounded session r (record_in print_event e now (expire now r)).0 map v
                      found
                      (λ over.
                        record_in-stays print_event e now (expire now r) (expire_stays now r over))
                      (λ kept.
                        record_in-IsKept print_event e now (expire now r)
                          (expire-IsKept now r kept)))
            ]))

  -- The recordings after a call of the recorder.
  pub data Step (map : Recordings) : Recordings → Type 0 where
    starts : (session : Bytes) (now : ℕ) → Step map (start session now map).0
    stops : (session : Bytes) (now : ℕ) → Step map (stop session now map).0
    records :
        (session : Bytes) (raw : Value) (now : ℕ)
        → Step map (record_event parse print print_event session raw now map).0
    lists :
        (session : Bytes) (filter : EventFilter) (now : ℕ)
        → Step map (events session filter now map).0

  pub data Reach : Recordings → Type 0 where
    empty : Reach []
    later : {map map' : Recordings} → Reach map → Step map map' → Reach map'

  -- After any calls of the recorder, with any parser and printer: at most ten recordings are active, and
  -- in every recording the size is the sum of its events' sizes and at most 524288000 bytes, the next id
  -- is at least 1, and each id from 1 below the next id is the id of exactly one event and no other id
  -- is any event's.
  pub Recording-bounds : (map : Recordings) → Reach map → IsBounded map
  Recording-bounds map empty = record { few = omega arith; kept = tt }
  Recording-bounds map (later r (starts session now)) =
      start-IsBounded session now _ (Recording-bounds _ r)
  Recording-bounds map (later r (stops session now)) =
      stop-IsBounded session now _ (Recording-bounds _ r)
  Recording-bounds map (later r (records session raw now)) =
      record_event-IsBounded session raw now _ (Recording-bounds _ r)
  Recording-bounds map (later r (lists session filter now)) =
      events-IsBounded session filter now _ (Recording-bounds _ r)
