-- ===== src/Pool/Admission/Examples.antt =====
-- Concrete pools of crates/agentplug-host/src/registry.rs.
use agentplug.Base.{
  ℕ, ◌+◌, ◌≤◌, ◌<◌, ◌≡◌, refl, ◌≢◌, true, false, [], ◌∷◌, none, some, count, arith,
}
use agentplug.Verbs.Cost.{cheap, contains}
use agentplug.Verbs.Lanes.{git, is_blocking_dispatch_verb}
use agentplug.Pool.Limits.{short_reserved_slots, non_short_admission_limit, heavy_admission_limit}
use agentplug.Pool.Holders.{
  TicketQueue, new_queue, IsCounted, release_holder, enter_general, is_general, is_general_heavy,
  is_git_band, is_blocking, register_holder,
}
use agentplug.Pool.Holders.Counts.{release-enter_general, enter_general-IsCounted}
use agentplug.Pool.Records.{World, AdmissionWaitReport, holder_detail}
use agentplug.Pool.Admission.{
  Round, Request, Outcome, attempt, still_waiting, general_room, git_room, round_result, wait_round,
  starve, starved_report, admit_loop, admit_verb_within_lane, release_over_age_admission_hold,
  oldest,
}
use agentplug.Pool.Admission.Reach.{start, later, admits, new_queue-IsWithin, Reach-capacity}
use agentplug.Pool.Admission.Waiting.{
  Refused, admit_verb_within_lane_ends, admit_verb_within_lane-Refused,
}
use agentplug.Pool.Admission.Reclaim.{Reclaims, release_over_age-Reclaims}

abbrev two_admitted : TicketQueue
two_admitted = (enter_general (enter_general new_queue "index" true 5 1).0 "fs_read" false 7 2).0

new_queue-IsCounted : IsCounted new_queue
new_queue-IsCounted = (new_queue-IsWithin 4).counted

two_admitted-IsCounted : IsCounted two_admitted
two_admitted-IsCounted =
    enter_general-IsCounted (enter_general new_queue "index" true 5 1).0 "fs_read" 7 2
      (enter_general-IsCounted new_queue "index" 5 1 new_queue-IsCounted true) false

release-enter_general_example :
    release_holder (enter_general two_admitted "read" false 9 3).0 3
    ≡ (record two_admitted { next_holder_id = 3 }, true)
unfolding enter_general register_holder
release-enter_general_example =
    release-enter_general two_admitted "read" false 9 3 two_admitted-IsCounted

abbrev read_request : Request
read_request = record {
  class = cheap;
  lane = some git;
  verb = "git_status";
  thread = 1;
  start = 0;
  max_wait = 100;
}

abbrev quiet_round : ℕ → Round
quiet_round now = record { before = λ w. w; now = now; between = λ w. w }

abbrev new_world : World
new_world = record { queue = new_queue; waits = λ t. none; last_admission = λ t. none }

Reach-capacity_example :
    (count is_general (enter_general new_queue "git_status" false 0 1).0.holders
        + count is_git_band (enter_general new_queue "git_status" false 0 1).0.holders
      ≤ 4)
    × (count is_general (enter_general new_queue "git_status" false 0 1).0.holders
          + short_reserved_slots 4
        ≤ 4)
    × (count is_general_heavy (enter_general new_queue "git_status" false 0 1).0.holders ≤ 3)
    × (count is_blocking (enter_general new_queue "git_status" false 0 1).0.holders < 4)
unfolding attempt general_room non_short_admission_limit short_reserved_slots heavy_admission_limit
Reach-capacity_example =
    Reach-capacity {slots = 4} (omega arith) (later start (admits read_request 0 refl))

admit_verb_within_lane_ends_example :
    (admit_verb_within_lane 4 60_000 read_request
      (quiet_round 50 ∷ quiet_round 150 ∷ [])
      new_world).1
    ≢ still_waiting
admit_verb_within_lane_ends_example =
    admit_verb_within_lane_ends 4 60_000 read_request (quiet_round 50 ∷ quiet_round 150 ∷ [])
      new_world refl

-- A pool of two slots with one general holder, which a dispatch that may not take the git band waits for.
abbrev full_world : World
full_world = record new_world { queue = (enter_general new_queue "index" false 5 1).0 }

abbrev fs_request : Request
fs_request = record read_request { verb = "fs_write"; lane = none }

abbrev refused_wait : World × Outcome
refused_wait =
    admit_verb_within_lane 2 60_000 fs_request (quiet_round 50 ∷ quiet_round 150 ∷ []) full_world

abbrev refusal : AdmissionWaitReport
refusal = record {
  kind = "cheap";
  waited_ms = 150;
  limit = 1;
  in_flight = 1;
  slots = 2;
  holder_detail = ("index", 145) ∷ [];
}

admit_verb_within_lane-Refused_example : Refused 2 fs_request refused_wait.0 refusal
unfolding admit_verb_within_lane admit_loop attempt general_room git_room starve wait_round
    non_short_admission_limit short_reserved_slots round_result starved_report holder_detail
    enter_general register_holder is_blocking_dispatch_verb contains release_over_age_admission_hold
    oldest
admit_verb_within_lane-Refused_example =
    admit_verb_within_lane-Refused 2 60_000 fs_request (quiet_round 50 ∷ quiet_round 150 ∷ [])
      full_world refl

release_over_age-Reclaims_example :
    Reclaims 4 two_admitted 60_000 90_000
      (release_over_age_admission_hold 4 two_admitted 60_000 90_000)
release_over_age-Reclaims_example =
    release_over_age-Reclaims 4 two_admitted 60_000 90_000 two_admitted-IsCounted
