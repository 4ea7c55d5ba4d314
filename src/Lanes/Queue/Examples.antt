-- ===== src/Lanes/Queue/Examples.antt =====
-- A concrete queue of a lane of crates/agentplug-host/src/registry.rs.
use agentplug.Base.{◌≡◌, ◌↔◌, true, [], ◌∷◌, ◌++◌, All, arith}
use agentplug.Lanes.Queue.{LaneWaiter, Claim, lane_admissible}
use agentplug.Lanes.Queue.Order.{Passes, lane_admissible_iff}
use agentplug.Lanes.Queue.Places.{IsNumbered}

abbrev pusher : LaneWaiter
pusher = record {
  token = 1;
  task = "a";
  identity = record { claimed_verb = "git_push"; digest = 11 };
  verb = "git_push";
  claimed_ms = 1_000;
  last_seen_ms = 1_000;
  active = true;
}

abbrev committer : LaneWaiter
committer = record {
  token = 2;
  task = "b";
  identity = record { claimed_verb = "git_commit"; digest = 12 };
  verb = "git_commit";
  claimed_ms = 2_000;
  last_seen_ms = 2_000;
  active = true;
}

abbrev commit_again : Claim
commit_again = record { verb = "git_commit"; task = "c"; identity = committer.identity }

lane_admissible_iff_example :
    (lane_admissible 120_000 3_000 ((pusher ∷ []) ++ (committer ∷ [])) 2 ≡ true)
    ↔ All (Passes 120_000 3_000 committer) (pusher ∷ [])
lane_admissible_iff_example =
    lane_admissible_iff 120_000 3_000 (pusher ∷ []) [] committer ((λ e. omega (arith, e)), tt)

one_place-IsNumbered : IsNumbered (pusher ∷ []) 2
one_place-IsNumbered = record { once = λ t. ground arith; below = λ t h. ground arith }
