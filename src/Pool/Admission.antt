-- ===== src/Pool/Admission.antt =====
-- Admission of a dispatch to a pool: `admit_verb_within_lane`, `admit_blocking_within` and what they
-- call, of crates/agentplug-host/src/registry.rs. A wait is a list of rounds, one for each time that
-- the loop takes the lock; between two locks other threads may change the queue.
pub mod Bounds
pub mod Waiting
pub mod Reclaim
pub mod Reach
mod Examples
use agentplug.Base.{
  ℕ, suc, ◌+◌, ◌-◌, ltb, leb, ◌==◌, Bool, true, false, not, ◌&&◌, ◌||◌, List, [], ◌∷◌, Option, none,
  some, String, str_eq, if◌then◌else◌, keep, map, any,
}
use agentplug.Verbs.Cost.{DispatchCostClass, cheap, heavy, short}
use agentplug.Verbs.Lanes.{Lane, git, is_heavy, is_blocking_dispatch_verb}
use agentplug.Pool.Limits.{
  non_short_admission_limit, heavy_admission_limit, git_band_admission_limit,
  blocking_admission_limit,
}
use agentplug.Pool.Records.{
  AdmissionBand, AdmissionRecord, AdmissionWaitState, AdmissionWaitReport, World, update,
  mark_admission_wait, clear_admission_wait, record_admission, holder_detail, general_band,
  git_band, unmetered,
}
use agentplug.Pool.Holders.{
  TicketQueue, AdmissionHolder, is_general, release_holder, enter_general, enter_git_band,
  enter_blocking,
}

-- `min_by_key(|holder| holder.since)`: the first of the oldest.
oldest_of : AdmissionHolder → List AdmissionHolder → AdmissionHolder
oldest_of best [] = best
oldest_of best (h ∷ hs) = oldest_of (if ltb h.since best.since then h else best) hs

pub oldest : List AdmissionHolder → Option AdmissionHolder
unfolding oldest_of
oldest [] = none
oldest (h ∷ hs) = some (oldest_of h hs)

pub record ReleasedAdmissionHold : Type 0 where
  pub verb : String
  pub held_ms : ℕ

reclaim : TicketQueue → ℕ → ℕ → Option AdmissionHolder → TicketQueue × Option ReleasedAdmissionHold
reclaim q min_held_ms now none = (q, none)
reclaim q min_held_ms now (some h) =
    if ltb (now - h.since) min_held_ms
    then (q, none)
    else ((release_holder q h.id).0, some (record { verb = h.verb; held_ms = now - h.since }))

pub release_over_age_admission_hold :
    (slots : ℕ) → TicketQueue → ℕ → ℕ → TicketQueue × Option ReleasedAdmissionHold
unfolding reclaim
release_over_age_admission_hold slots q min_held_ms now =
    if leb slots (q.non_short_inflight + q.git_band_inflight + q.blocking_inflight)
    then (q, none)
    else reclaim q min_held_ms now (oldest (keep is_general q.holders))

-- The holder that `over_bound_refusal` names, with its age.
pub over_bound_refusal : TicketQueue → ℕ → ℕ → Option (AdmissionHolder × ℕ)
over_bound_refusal q min_held_ms now =
    elim (oldest (keep (λ h. leb min_held_ms (now - h.since)) q.holders)) [
      | none ↦ none
      | some h ↦ some (h, now - h.since)
    ]

-- `release_admission_for_thread` on the live pools' queues.
pub thread_ids : ℕ → List AdmissionHolder → List ℕ
thread_ids thread hs = map (λ h. h.id) (keep (λ h. h.thread == thread) hs)

pub release_ids : TicketQueue → List ℕ → TicketQueue × ℕ
release_ids q [] = (q, 0)
release_ids q (id ∷ ids) =
    let (q', released) = release_holder q id in
    let (q'', n) = release_ids q' ids in (q'', if released then n + 1 else n)

pub release_admission_for_thread : List TicketQueue → ℕ → List TicketQueue × ℕ
unfolding thread_ids release_ids
release_admission_for_thread [] thread = ([], 0)
release_admission_for_thread (q ∷ qs) thread =
    let (q', n) = release_ids q (thread_ids thread q.holders) in
    let (qs', m) = release_admission_for_thread qs thread in (q' ∷ qs', n + m)

-- `HeavyDispatchAdmission` and `BlockingDispatchAdmission`: with no pool there is nothing to give back.
pub data Admission : Type 0 where
  no_pool : Admission
  held : (holder : ℕ) → Admission

-- `drop` of either guard.
pub drop_admission : TicketQueue → Admission → TicketQueue
drop_admission q no_pool = q
drop_admission q (held holder) = (release_holder q holder).0

-- How far a wait came with the rounds it was given.
pub data Outcome : Type 0 where
  admitted : Admission → Outcome
  starved : AdmissionWaitReport → Outcome
  still_waiting : Outcome

pub record Round : Type 0 where
  -- what other threads do before the loop takes the lock
  pub before : World → World
  -- the clock at the attempt
  pub now : ℕ
  -- what other threads do before the over-age holds are looked at
  pub between : World → World

pub record Request : Type 0 where
  pub class : DispatchCostClass
  pub lane : Option Lane
  pub verb : String
  pub thread : ℕ
  pub start : ℕ
  pub max_wait : ℕ

abbrev is_git : Option Lane → Bool
is_git none = false
is_git (some l) = elim l [ git ↦ true | _ ↦ false ]

abbrev pub is_short : DispatchCostClass → Bool
is_short short = true
is_short other = false

-- `is_git_lane`
abbrev pub takes_git_band : Request → Bool
takes_git_band r = not (is_heavy r.class) && is_git r.lane

-- `heavy_ok && q.non_short_inflight < limit`
pub general_room : ℕ → Request → TicketQueue → Bool
general_room slots r q =
    (not (is_heavy r.class) || ltb q.heavy_inflight (heavy_admission_limit slots))
    && ltb q.non_short_inflight (non_short_admission_limit slots)

-- `is_git_lane && q.git_band_inflight < git_band_limit`
pub git_room : ℕ → Request → TicketQueue → Bool
git_room slots r q = takes_git_band r && ltb q.git_band_inflight (git_band_admission_limit slots)

-- The block under the lock: the queue after an admission, the holder's id and the admission's record.
pub attempt : ℕ → Request → ℕ → TicketQueue → Option (TicketQueue × ℕ × AdmissionRecord)
attempt slots r now q =
    if general_room slots r q
    then (let (q', holder) = enter_general q r.verb (is_heavy r.class) now r.thread in
        some (
          q',
          holder,
          record {
            band = general_band;
            waited_ms = now - r.start;
            limit = non_short_admission_limit slots;
            in_flight = q'.non_short_inflight;
          },
        ))
    else if git_room slots r q
    then (let (q', holder) = enter_git_band q r.verb now r.thread in
        some (
          q',
          holder,
          record {
            band = git_band;
            waited_ms = now - r.start;
            limit = git_band_admission_limit slots;
            in_flight = q'.git_band_inflight;
          },
        ))
    else none

starved_report : ℕ → String → ℕ → ℕ → ℕ → TicketQueue → ℕ → AdmissionWaitReport
starved_report slots kind limit in_flight waited q now = record {
  kind = kind;
  waited_ms = waited;
  limit = limit;
  in_flight = in_flight;
  slots = slots;
  holder_detail = holder_detail q now;
}

abbrev kind_label : Request → String
kind_label r = if is_heavy r.class then "heavy" else "cheap"

admit_now : World → Request → TicketQueue × ℕ × AdmissionRecord → World × Outcome
unfolding clear_admission_wait record_admission
admit_now w r (q, holder, entry) = (
  record_admission (clear_admission_wait (record w { queue = q }) r.thread) r.thread entry,
  admitted (held holder),
)

-- How a round ends, given what follows when it did not admit.
round_result :
    World → Request → World × Outcome → Option (TicketQueue × ℕ × AdmissionRecord) → World × Outcome
unfolding admit_now
round_result w r refused none = refused
round_result w r refused (some entered) = admit_now w r entered

-- The rest of a round that did not admit: mark the wait and reclaim an over-age hold. Whether one was
-- reclaimed decides only if the loop sleeps before the next round.
wait_round : ℕ → ℕ → Request → Round → World → World
unfolding mark_admission_wait
wait_round slots hold_max r round w =
    let marked =
      mark_admission_wait w r.thread (kind_label r) (non_short_admission_limit slots)
        w.queue.non_short_inflight round.now in
    let seen = round.between marked in
    record seen { queue = (release_over_age_admission_hold slots seen.queue hold_max round.now).0 }

starve : ℕ → Request → ℕ → World → World × Outcome
unfolding starved_report clear_admission_wait
starve slots r now w = (
  clear_admission_wait w r.thread,
  starved (
      starved_report slots (kind_label r) (non_short_admission_limit slots)
        w.queue.non_short_inflight (now - r.start) w.queue now),
)

-- The `loop` of `admit_verb_within_lane`; `hold_max` is `admission_hold_max_ms()`.
pub admit_loop : ℕ → ℕ → Request → List Round → World → World × Outcome
unfolding round_result wait_round starve
admit_loop slots hold_max r [] w = (w, still_waiting)
admit_loop slots hold_max r (round ∷ rounds) w =
    let seen = round.before w in
    let later = admit_loop slots hold_max r rounds (wait_round slots hold_max r round seen) in
    let refused =
      if leb r.max_wait (round.now - r.start) then starve slots r round.now seen else later in
    round_result seen r refused (attempt slots r round.now seen.queue)

abbrev unmetered_record : AdmissionRecord
unmetered_record = record { band = unmetered; waited_ms = 0; limit = 0; in_flight = 0 }

-- The early return of `admit_verb_within_lane`.
abbrev pub is_unmetered : ℕ → Request → Bool
is_unmetered slots r = is_short r.class || ltb slots 2 || is_blocking_dispatch_verb r.verb

pub admit_verb_within_lane : ℕ → ℕ → Request → List Round → World → World × Outcome
unfolding record_admission
admit_verb_within_lane slots hold_max r rounds w =
    if is_unmetered slots r
    then (record_admission w r.thread unmetered_record, admitted no_pool)
    else admit_loop slots hold_max r rounds w

-- The `loop` of `admit_blocking_within`.
pub admit_blocking_loop : ℕ → Request → List Round → World → World × Outcome
unfolding starved_report clear_admission_wait mark_admission_wait
admit_blocking_loop slots r [] w = (w, still_waiting)
admit_blocking_loop slots r (round ∷ rounds) w =
    let seen = round.before w in
    let limit = blocking_admission_limit slots in
    let in_flight = seen.queue.blocking_inflight in
    let later =
      admit_blocking_loop slots r rounds
        (mark_admission_wait seen r.thread "blocking" limit in_flight round.now) in
    if ltb in_flight limit
    then (let (q, holder) = enter_blocking seen.queue r.verb round.now r.thread in
        (clear_admission_wait (record seen { queue = q }) r.thread, admitted (held holder)))
    else if leb r.max_wait (round.now - r.start)
    then (
      clear_admission_wait seen r.thread,
      starved (
          starved_report slots "blocking" limit in_flight (round.now - r.start) seen.queue
            round.now),
    )
    else later

pub admit_blocking_within : ℕ → Request → List Round → World → World × Outcome
unfolding admit_blocking_loop
admit_blocking_within slots r rounds w =
    if not (is_blocking_dispatch_verb r.verb) || ltb slots 2
    then (w, admitted no_pool)
    else admit_blocking_loop slots r rounds w
