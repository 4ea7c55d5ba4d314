-- ===== src/Pool/Admission/Bounds.antt =====
-- The bounds that admission keeps, however the threads interleave.
use agentplug.Base.{
  ℕ, ◌+◌, ◌-◌, ◌≤◌, ◌<◌, ◌≡◌, inl, inr, true, List, [], ◌∷◌, Option, none, some, String, All, keep,
  arith, ltb, leb, Bool-cases,
}
use agentplug.Verbs.Lanes.{is_heavy}
use agentplug.Pool.Limits.{
  non_short_admission_limit, heavy_admission_limit, git_band_admission_limit,
  blocking_admission_limit,
}
use agentplug.Pool.Holders.{
  TicketQueue, AdmissionHolder, is_general, release_holder, enter_general, enter_git_band,
  enter_blocking, IsCounted, register_holder,
}
use agentplug.Pool.Holders.Counts.{
  enter_general-IsCounted, enter_git_band-IsCounted, enter_blocking-IsCounted,
  release_holder-IsCounted, release_holder-le,
}
use agentplug.Pool.Records.{World, AdmissionRecord, mark_admission_wait}
use agentplug.Pool.Admission.{
  Round, Request, attempt, general_room, git_room, admit_loop, round_result, admit_now, Admission,
  no_pool, held, Outcome, release_ids, oldest, release_over_age_admission_hold, wait_round,
  drop_admission, reclaim,
}

-- The counters are right, and each is within its limit.
pub record IsWithin (slots : ℕ) (q : TicketQueue) : Type 0 where
  pub counted : IsCounted q
  pub general_within : q.non_short_inflight ≤ non_short_admission_limit slots
  pub heavy_within : q.heavy_inflight ≤ heavy_admission_limit slots
  pub git_within : q.git_band_inflight ≤ git_band_admission_limit slots
  pub blocking_within : q.blocking_inflight ≤ blocking_admission_limit slots

abbrev pub Entered : ℕ → Option (TicketQueue × ℕ × AdmissionRecord) → Type 0
Entered slots none = Unit {0}
Entered slots (some (q, _, _)) = IsWithin slots q

module _ (slots : ℕ) (q : TicketQueue) (v : IsWithin slots q) where
  open v use {counted}

  general-IsWithin :
      (r : Request) (now : ℕ)
      → general_room slots r q ≡ true
      → IsWithin slots (enter_general q r.verb (is_heavy r.class) now r.thread).0
  unfolding general_room enter_general register_holder
  general-IsWithin r now room = record {
    counted = enter_general-IsCounted q r.verb now r.thread counted (is_heavy r.class);
    general_within = ground arith;
    heavy_within = ground arith;
    git_within = ground arith;
    blocking_within = ground arith;
  }

  git-IsWithin :
      (r : Request) (now : ℕ)
      → git_room slots r q ≡ true
      → IsWithin slots (enter_git_band q r.verb now r.thread).0
  unfolding git_room enter_git_band register_holder
  git-IsWithin r now room = record {
    counted = enter_git_band-IsCounted q r.verb now r.thread counted;
    general_within = ground arith;
    heavy_within = ground arith;
    git_within = ground arith;
    blocking_within = ground arith;
  }

  pub blocking-IsWithin :
      (verb : String) (now thread : ℕ)
      → q.blocking_inflight < blocking_admission_limit slots
      → IsWithin slots (enter_blocking q verb now thread).0
  unfolding enter_blocking register_holder
  blocking-IsWithin verb now thread room = record {
    counted = enter_blocking-IsCounted q verb now thread counted;
    general_within = ground arith;
    heavy_within = ground arith;
    git_within = ground arith;
    blocking_within = ground arith;
  }

  pub attempt-IsWithin : (r : Request) (now : ℕ) → Entered slots (attempt slots r now q)
  unfolding attempt
  attempt-IsWithin r now = elim (Bool-cases (general_room slots r q)) [
    | inl room ↦ rw room (general-IsWithin r now room)
    | inr full ↦ rw full (elim (Bool-cases (git_room slots r q)) [
      | inl room ↦ rw room (git-IsWithin r now room)
      | inr none_left ↦ rw none_left tt
    ])
  ]

  release-IsWithin : (id : ℕ) → IsWithin slots (release_holder q id).0
  release-IsWithin id = record {
    counted = release_holder-IsCounted q id counted;
    general_within = ground (arith, release_holder-le q id);
    heavy_within = ground (arith, release_holder-le q id);
    git_within = ground (arith, release_holder-le q id);
    blocking_within = ground (arith, release_holder-le q id);
  }

  reclaim-IsWithin :
      (min_held now : ℕ) (h : Option AdmissionHolder) → IsWithin slots (reclaim q min_held now h).0
  unfolding reclaim
  reclaim-IsWithin min_held now none = v
  reclaim-IsWithin min_held now (some h) = elim (Bool-cases (ltb (now - h.since) min_held)) [
    | inl young ↦ rw young v
    | inr old ↦ rw old (release-IsWithin h.id)
  ]

  pub release_over_age-IsWithin :
      (min_held now : ℕ) → IsWithin slots (release_over_age_admission_hold slots q min_held now).0
  unfolding release_over_age_admission_hold
  release_over_age-IsWithin min_held now =
      elim (Bool-cases
        (leb slots (q.non_short_inflight + q.git_band_inflight + q.blocking_inflight))) [
          | inl no_slot ↦ rw no_slot v
          | inr free ↦ rw free (reclaim-IsWithin min_held now (oldest (keep is_general q.holders)))
        ]

  pub drop_admission-IsWithin : (a : Admission) → IsWithin slots (drop_admission q a)
  unfolding drop_admission
  drop_admission-IsWithin no_pool = v
  drop_admission-IsWithin (held holder) = release-IsWithin holder

pub release_ids-IsWithin :
    (slots : ℕ) (q : TicketQueue) (ids : List ℕ)
    → IsWithin slots q
    → IsWithin slots (release_ids q ids).0
unfolding release_ids
release_ids-IsWithin slots q [] v = v
release_ids-IsWithin slots q (id ∷ ids) v =
    release_ids-IsWithin slots (release_holder q id).0 ids (release-IsWithin slots q v id)

abbrev pub Keeps : ℕ → (World → World) → Type 0
Keeps slots f = (w : World) → IsWithin slots w.queue → IsWithin slots (f w).queue

-- What the other threads do around a round keeps the bounds.
abbrev pub Honest : ℕ → Round → Type 0
Honest slots round = Keeps slots round.before × Keeps slots round.between

wait_round-IsWithin :
    (slots hold_max : ℕ) (r : Request) (round : Round) (w : World)
    → Honest slots round
    → IsWithin slots w.queue
    → IsWithin slots (wait_round slots hold_max r round w).queue
unfolding wait_round mark_admission_wait
wait_round-IsWithin slots hold_max r round w honest v =
    release_over_age-IsWithin slots _ (honest.1 _ v) hold_max round.now

round-IsWithin :
    (slots : ℕ) (r : Request) (w : World) (refused : World × Outcome)
    (o : Option (TicketQueue × ℕ × AdmissionRecord))
    → Entered slots o
    → IsWithin slots refused.0.queue
    → IsWithin slots (round_result w r refused o).0.queue
unfolding round_result admit_now
round-IsWithin slots r w refused none entered v = v
round-IsWithin slots r w refused (some (q, holder, entry)) entered v = entered

-- A wait keeps each counter equal to the number of its holders and within its limit, as long as what the
-- other threads do between its locks keeps them so.
pub admit_loop-IsWithin :
    (slots hold_max : ℕ) (r : Request) (rounds : List Round) (w : World)
    → All (Honest slots) rounds
    → IsWithin slots w.queue
    → IsWithin slots (admit_loop slots hold_max r rounds w).0.queue
unfolding admit_loop
admit_loop-IsWithin slots hold_max r [] w honest v = v
admit_loop-IsWithin slots hold_max r (round ∷ rounds) w (h, hs) v =
    round-IsWithin slots r (round.before w) _ _
      (attempt-IsWithin slots (round.before w).queue (h.0 w v) r round.now)
      (elim (Bool-cases (leb r.max_wait (round.now - r.start))) [
        | inl over ↦ rw over (h.0 w v)
        | inr early ↦ rw early (
            admit_loop-IsWithin slots hold_max r rounds _ hs
              (wait_round-IsWithin slots hold_max r round (round.before w) h (h.0 w v)))
      ])
