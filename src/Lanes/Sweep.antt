-- ===== src/Lanes/Sweep.antt =====
-- The reaping of lanes whose owner is gone: `release_abandoned_lane_owners` and
-- `release_dead_lane_owners` of crates/agentplug-host/src/registry.rs. Other threads act between the
-- locks of a sweep; what they do there is an argument.
pub mod Freeing
pub mod Reaping
use agentplug.Base.{
  ℕ, ◌-◌, ◌≤◌, ◌≡◌, refl, ◌≢◌, sym, ap, ◌∙◌, leb, leb→le, ◌==◌, ==_iff, Bool, true, false, not,
  ◌&&◌, ◌||◌, List, [], ◌∷◌, map, Option, none, some, String, str_eq, if◌then◌else◌, any, All,
  arith, Bool-cases, Option-cases, inl, inr,
}
use agentplug.Base.Maps.{Text, text_eq, lookup, remove, lookup-remove}
use agentplug.Lanes.Keys.{LaneKey, lane_key}
use agentplug.Lanes.Root.{lane_root_identity}
use agentplug.Lanes.Owners.{LaneOwner, World, owner_token, disown}

pub record AbandonedLaneOwner : Type 0 where
  pub key : LaneKey
  pub verb : String
  pub task : String
  pub held_ms : ℕ

abbrev pub abandoned : ℕ → LaneKey → LaneOwner → AbandonedLaneOwner
abandoned now key owner = record {
  key = key;
  verb = owner.verb;
  task = owner.task;
  held_ms = now - owner.acquired_ms;
}

-- The owners that have held their lane for long enough, with their tokens.
pub candidates : ℕ → ℕ → List (LaneKey × LaneOwner) → List (LaneKey × ℕ)
candidates now min_held_ms [] = []
candidates now min_held_ms ((key, owner) ∷ owners) =
    let rest = candidates now min_held_ms owners in
    if leb min_held_ms (now - owner.acquired_ms) then (key, owner.token) ∷ rest else rest

taken : ℕ → World → LaneKey → ℕ → Option LaneOwner → World × List AbandonedLaneOwner
taken now w key token none = (w, [])
taken now w key token (some owner) =
    if owner.token == token then (disown w key, abandoned now key owner ∷ []) else (w, [])

-- The removal of the owner with the token, if it still owns the lane.
pub take_owner : ℕ → World → LaneKey → ℕ → World × List AbandonedLaneOwner
unfolding taken
take_owner now w key token = taken now w key token (lookup key w.owners)

prepend :
    List AbandonedLaneOwner → World × List AbandonedLaneOwner → World × List AbandonedLaneOwner
prepend [] (w, released) = (w, released)
prepend (r ∷ rs) (w, released) = (w, r ∷ released)

-- `live.contains(&lane_root_identity(&key.0))`
is_live_root : List Text → Text → Bool
is_live_root live_roots root =
    any (λ live. text_eq (lane_root_identity live) (lane_root_identity root)) live_roots

sweep_abandoned :
    ℕ
    → List Text
    → (LaneKey → World → World)
    → List (LaneKey × ℕ)
    → World
    → World × List AbandonedLaneOwner
unfolding take_owner prepend is_live_root
sweep_abandoned now live_roots others [] w = (w, [])
sweep_abandoned now live_roots others ((key, token) ∷ cs) w =
    let seen = others key w in
    let (w', released) =
      if is_live_root live_roots key.root then (w, []) else take_owner now seen key token in
    prepend released (sweep_abandoned now live_roots others cs w')

pub release_abandoned_lane_owners :
    ℕ → List Text → ℕ → (LaneKey → World → World) → World → World × List AbandonedLaneOwner
unfolding sweep_abandoned candidates
release_abandoned_lane_owners now live_roots min_held_ms others w =
    sweep_abandoned now live_roots others (candidates now min_held_ms w.owners) w

-- `holder_is_live(root, lane, verb, task)`
abbrev pub Liveness : Type 0
Liveness = LaneKey → String → String → Bool

-- The first look at a candidate: whether the owner is the one of the snapshot, has names and is not live.
is_dead : Liveness → LaneKey → ℕ → Option LaneOwner → Bool
is_dead live key token none = false
is_dead live key token (some owner) =
    owner.token == token
    && not (str_eq owner.verb "" || str_eq owner.task "")
    && not (live key owner.verb owner.task)

-- One candidate: `seen` is the world of the first look, `last` that of the removal.
visit_dead : ℕ → Liveness → World → World → LaneKey → ℕ → World × List AbandonedLaneOwner
unfolding take_owner is_dead
visit_dead now live seen last key token =
    if is_dead live key token (lookup key seen.owners)
    then take_owner now last key token
    else (seen, [])

sweep_dead :
    ℕ
    → Liveness
    → (LaneKey → World → World)
    → (LaneKey → World → World)
    → List (LaneKey × ℕ)
    → World
    → World × List AbandonedLaneOwner
unfolding visit_dead prepend
sweep_dead now live others later [] w = (w, [])
sweep_dead now live others later ((key, token) ∷ cs) w =
    let seen = others key w in
    let visit = visit_dead now live seen (later key seen) key token in
    prepend visit.1 (sweep_dead now live others later cs visit.0)

pub release_dead_lane_owners :
    ℕ
    → ℕ
    → Liveness
    → (LaneKey → World → World)
    → (LaneKey → World → World)
    → World
    → World × List AbandonedLaneOwner
unfolding sweep_dead candidates
release_dead_lane_owners now min_held_ms live others later w =
    sweep_dead now live others later (candidates now min_held_ms w.owners) w
