-- ===== src/Pool/Admission/Waiting.antt =====
-- How a wait for admission ends.
use agentplug.Base.{
  ℕ, ◌-◌, ◌≤◌, ◌≡◌, refl, ◌≢◌, ◌⊎◌, inl, inr, leb, Bool, true, false, List, [], ◌∷◌, Option, none,
  some, any, arith, Bool-cases, leb→le, subst,
}
use agentplug.Pool.Limits.{
  non_short_admission_limit, heavy_admission_limit, git_band_admission_limit,
}
use agentplug.Pool.Holders.{TicketQueue}
use agentplug.Pool.Records.{World, AdmissionRecord, AdmissionWaitReport, clear_admission_wait}
use agentplug.Pool.Admission.{
  Round, Request, Outcome, admitted, starved, still_waiting, general_room, git_room, takes_git_band,
  attempt, round_result, admit_now, starve, starved_report, admit_loop, admit_verb_within_lane,
  is_unmetered,
}
use agentplug.Verbs.Lanes.{is_heavy}

-- A round whose clock has reached the bound on the wait.
abbrev pub is_last : Request → Round → Bool
is_last r round = leb r.max_wait (round.now - r.start)

round_ends :
    (w : World) (r : Request) (refused : World × Outcome)
    (o : Option (TicketQueue × ℕ × AdmissionRecord))
    → refused.1 ≢ still_waiting
    → (round_result w r refused o).1 ≢ still_waiting
unfolding round_result admit_now
round_ends w r refused none h = h
round_ends w r refused (some (q, holder, entry)) h = λ e. cc

starve_ends :
    (slots : ℕ) (r : Request) (now : ℕ) (w : World) → (starve slots r now w).1 ≢ still_waiting
unfolding starve
starve_ends slots r now w e = cc

admit_loop_ends :
    (slots hold_max : ℕ) (r : Request) (rounds : List Round) (w : World)
    → any (is_last r) rounds ≡ true
    → (admit_loop slots hold_max r rounds w).1 ≢ still_waiting
unfolding admit_loop
admit_loop_ends slots hold_max r [] w h = cc
admit_loop_ends slots hold_max r (round ∷ rounds) w h =
    round_ends (round.before w) r _ (attempt slots r round.now (round.before w).queue)
      (elim (Bool-cases (is_last r round)) [
        | inl over ↦ rw over (starve_ends slots r round.now (round.before w))
        | inr early ↦ rw early (admit_loop_ends slots hold_max r rounds _ (ground arith))
      ])

-- A wait ends: once a round finds the bound on the wait reached, the dispatch is admitted or starved,
-- whatever the other threads do.
pub admit_verb_within_lane_ends :
    (slots hold_max : ℕ) (r : Request) (rounds : List Round) (w : World)
    → any (is_last r) rounds ≡ true
    → (admit_verb_within_lane slots hold_max r rounds w).1 ≢ still_waiting
unfolding admit_verb_within_lane
admit_verb_within_lane_ends slots hold_max r rounds w h = elim (Bool-cases (is_unmetered slots r)) [
  | inl free ↦ rw free (λ e. cc)
  | inr metered ↦ rw metered (admit_loop_ends slots hold_max r rounds w h)
]

-- What a refusal says, by the world that it leaves.
abbrev pub Refused : ℕ → Request → World → AdmissionWaitReport → Type 0
Refused slots r w report =
    (r.max_wait ≤ report.waited_ms)
    × (report.in_flight ≡ w.queue.non_short_inflight)
    × ((non_short_admission_limit slots ≤ w.queue.non_short_inflight)
        ⊎ ((is_heavy r.class ≡ true) × (heavy_admission_limit slots ≤ w.queue.heavy_inflight)))
    × ((takes_git_band r ≡ false) ⊎ (git_band_admission_limit slots ≤ w.queue.git_band_inflight))
    × (w.waits r.thread ≡ none)

abbrev Starves : ℕ → Request → World × Outcome → Type 0
Starves slots r (w, admitted a) = Unit {0}
Starves slots r (w, still_waiting) = Unit {0}
Starves slots r (w, starved report) = Refused slots r w report

starve-Starves :
    (slots : ℕ) (r : Request) (now : ℕ) (w : World)
    → r.max_wait ≤ now - r.start
    → general_room slots r w.queue ≡ false
    → git_room slots r w.queue ≡ false
    → Starves slots r (starve slots r now w)
unfolding starve starved_report clear_admission_wait general_room git_room
starve-Starves slots r now w over no_general no_git =
    (over, refl, ground arith, ground arith, ground arith)

round-Starves :
    (slots : ℕ) (r : Request) (now : ℕ) (w : World) (refused : World × Outcome)
    → (general_room slots r w.queue ≡ false
        → git_room slots r w.queue ≡ false
        → Starves slots r refused)
    → Starves slots r (round_result w r refused (attempt slots r now w.queue))
unfolding attempt round_result admit_now
round-Starves slots r now w refused h = elim (Bool-cases (general_room slots r w.queue)) [
  | inl room ↦ rw room tt
  | inr full ↦ rw full (elim (Bool-cases (git_room slots r w.queue)) [
    | inl room ↦ rw room tt
    | inr none_left ↦ rw none_left (h full none_left)
  ])
]

admit_loop-Starves :
    (slots hold_max : ℕ) (r : Request) (rounds : List Round) (w : World)
    → Starves slots r (admit_loop slots hold_max r rounds w)
unfolding admit_loop
admit_loop-Starves slots hold_max r [] w = tt
admit_loop-Starves slots hold_max r (round ∷ rounds) w =
    round-Starves slots r round.now (round.before w) _ λ full none_left.
      elim (Bool-cases (is_last r round)) [
        | inl over ↦
            rw over
              (starve-Starves slots r round.now (round.before w) (leb→le _ _ over) full none_left)
        | inr early ↦ rw early (admit_loop-Starves slots hold_max r rounds _)
      ]

admission-Starves :
    (slots hold_max : ℕ) (r : Request) (rounds : List Round) (w : World)
    → Starves slots r (admit_verb_within_lane slots hold_max r rounds w)
unfolding admit_verb_within_lane
admission-Starves slots hold_max r rounds w = elim (Bool-cases (is_unmetered slots r)) [
  | inl free ↦ rw free tt
  | inr metered ↦ rw metered (admit_loop-Starves slots hold_max r rounds w)
]

-- A dispatch that is refused has waited its whole wait, and in the world that its refusal leaves the general
-- band (or, for a heavy one, the heavy share of it) is full, and the git band too if it may take that. The
-- report counts the general holders at that moment, and the thread is no longer listed as waiting.
pub admit_verb_within_lane-Refused :
    (slots hold_max : ℕ) (r : Request) (rounds : List Round) (w : World) {after : World}
    {report : AdmissionWaitReport}
    → admit_verb_within_lane slots hold_max r rounds w ≡ (after, starved report)
    → Refused slots r after report
admit_verb_within_lane-Refused slots hold_max r rounds w e =
    subst (Starves slots r) e (admission-Starves slots hold_max r rounds w)
