-- ===== src/Lanes/Examples.antt =====
-- Concrete lanes of crates/agentplug-host/src/registry.rs, with an owner and a waiter.
use agentplug.Base.{refl, true, false, List, [], ◌∷◌, All, inl, inr, arith}
use agentplug.Base.Maps.{Text}
use agentplug.Verbs.Lanes.{git}
use agentplug.Lanes.Keys.{LaneKey, lane_key}
use agentplug.Lanes.Queue.{LaneWaiter}
use agentplug.Lanes.Owners.{LaneOwner, World, Call, Round, acquire_loop}
use agentplug.Lanes.Owners.Taking.{Ends, acquire_loop-Ends}
use agentplug.Lanes.Sweep.{release_dead_lane_owners}
use agentplug.Lanes.Sweep.Freeing.{Frees}
use agentplug.Lanes.Sweep.Reaping.{Reaped, release_dead_lane_owners-Reaped}

abbrev repo : Text
repo = 47 ∷ 114 ∷ []

abbrev git_lane : LaneKey
git_lane = record { root = repo; lane = git }

abbrev pusher_owner : LaneOwner
pusher_owner = record { verb = "git_push"; token = 1; task = "a"; acquired_ms = 1_000 }

abbrev waits_behind : LaneWaiter
waits_behind = record {
  token = 2;
  task = "b";
  identity = record { claimed_verb = "git_commit"; digest = 12 };
  verb = "git_commit";
  claimed_ms = 2_000;
  last_seen_ms = 2_000;
  active = true;
}

abbrev owned : World
owned = record {
  owners = (git_lane, pusher_owner) ∷ [];
  waiters = (git_lane, waits_behind ∷ []) ∷ [];
  next_token = 3;
}

abbrev commit_call : Call
commit_call = record {
  root = repo;
  verb = "git_commit";
  body = "{}";
  task = "b";
  start = 2_000;
  max_wait = 500;
}

-- The owner leaves while the call waits.
abbrev two_rounds : List Round
two_rounds =
    record { before = λ w. w; now = 2_100 }
    ∷ record { before = λ w. record w { owners = [] }; now = 2_600 }
    ∷ []

acquire_loop-Ends_example :
    Ends 120_000 commit_call git_lane 2 two_rounds owned
      (acquire_loop 120_000 commit_call git_lane 2 two_rounds owned)
acquire_loop-Ends_example =
    acquire_loop-Ends 120_000 commit_call git_lane 2 two_rounds owned (inr (inl (omega arith)))

release_dead_lane_owners-Reaped_example :
    All
      (Reaped (λ t. pusher_owner) 90_000 60_000 (λ k v t. false))
      (release_dead_lane_owners 90_000 60_000 (λ k v t. false) (λ k w. w) (λ k w. w) owned).1
    × Frees git_lane owned
        (release_dead_lane_owners 90_000 60_000 (λ k v t. false) (λ k w. w) (λ k w. w) owned)
release_dead_lane_owners-Reaped_example =
    release_dead_lane_owners-Reaped (λ t. pusher_owner) 90_000 60_000 (λ k v t. false) (λ k w. w)
      (λ k w. w) (λ k w h. h) (λ k w h. h) git_lane owned (refl, tt) (λ k w. refl) (λ k w. refl)
