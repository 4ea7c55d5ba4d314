-- ===== src/Lanes/Owners.antt =====
-- The lanes of the projects, their owners and their queues: `GM_LANE_OWNERS`, `gm_lane_waiters` and
-- `GmFairnessGuard` of crates/agentplug-host/src/registry.rs. A wait is a list of rounds, one for each
-- time that the loop looks at the lane; all clocks read milliseconds.
pub mod Taking
use agentplug.Base.{
  ℕ, ◌+◌, ◌-◌, ◌==◌, leb, Bool, true, false, not, ◌&&◌, List, [], ◌∷◌, Option, none, some, String,
  str_eq, if◌then◌else◌, any, ◌≡◌, refl, ◌↔◌,
}
use agentplug.Base.{arith}
use agentplug.Base.Maps.{Text, lookup, insert, remove, put}
use agentplug.Lanes.Keys.{LaneKey, lane_key}
use agentplug.Verbs.Json.{Value}
use agentplug.Verbs.Lanes.{
  Lane, git, read, store, state, browser, serial_lane_for_dispatch, lane_name,
}
use agentplug.Lanes.Root.{lane_root_identity}
use agentplug.Lanes.Queue.{
  Identity, LaneWaiter, Claim, lane_admissible, lane_queue_depth, claim_place, leave, deactivate,
  requeue_front,
}

pub record LaneOwner : Type 0 where
  pub verb : String
  pub token : ℕ
  pub task : String
  pub acquired_ms : ℕ

pub record World : Type 0 where
  pub owners : List (LaneKey × LaneOwner)
  pub waiters : List (LaneKey × List LaneWaiter)
  pub next_token : ℕ

pub record GmFairnessGuard : Type 0 where
  pub root : Text
  pub lane : Option Lane
  pub token : ℕ

pub record Call : Type 0 where
  pub root : Text
  pub verb : String
  pub body : String
  pub task : String
  pub start : ℕ
  pub max_wait : ℕ

pub record Round : Type 0 where
  pub before : World → World
  pub now : ℕ

pub record LaneWaitReport : Type 0 where
  pub lane : Lane
  pub waited_ms : ℕ
  pub waiters : ℕ
  pub waiters_active : ℕ
  pub waiters_stale : ℕ
  pub lane_position : Option ℕ
  pub lane_holder_task : Option String
  pub lane_holder_verb : Option String
  pub lane_holder_held_ms : ℕ
  pub lane_holder_age_ms : ℕ

pub data Outcome : Type 0 where
  guarded : GmFairnessGuard → Outcome
  refused : LaneWaitReport → Outcome
  queued : Outcome

-- `entry(key).or_default()`
abbrev pub queue_of : Option (List LaneWaiter) → List LaneWaiter
queue_of none = []
queue_of (some queue) = queue

abbrev pub is_none {ℓ} : {A : Type ℓ} → Option A → Bool
is_none none = true
is_none (some a) = false

-- `is_empty() { None } else { Some(..) }`
abbrev pub nonempty : String → Option String
nonempty s = if str_eq s "" then none else some s

-- The position of the first entry that passes a test, from 1.
abbrev pub place_of : (LaneWaiter → Bool) → List LaneWaiter → Option ℕ
place_of p [] = none
place_of p (e ∷ es) =
    if p e then some 1 else elim (place_of p es) [ none ↦ none | some i ↦ some (i + 1) ]

abbrev pub no_guard : Text → GmFairnessGuard
no_guard root = record { root = root; lane = none; token = 0 }

abbrev pub lane_guard : LaneKey → ℕ → GmFairnessGuard
lane_guard key token = record { root = key.root; lane = some key.lane; token = token }

-- The entry of the map is there after a claim, even if the queue was not.
pub enqueue_claim : World → LaneKey → Claim → ℕ → World × ℕ
enqueue_claim w key claim now =
    let (queue, token, next) =
      claim_place (queue_of (lookup key w.waiters)) claim now w.next_token in
    (record w { waiters = insert key queue w.waiters; next_token = next }, token)

own : World → LaneKey → LaneOwner → World
own w key owner = record w { owners = insert key owner w.owners }

-- `!owners.contains_key(&key) && lane_admissible(..)`
may_own : ℕ → ℕ → World → LaneKey → ℕ → Bool
may_own yield_ms now w key token =
    is_none (lookup key w.owners)
    && lane_admissible yield_ms now (queue_of (lookup key w.waiters)) token

-- The `loop` of `acquire_within`: `none` while the thread waits.
pub acquire_loop : ℕ → Call → LaneKey → ℕ → List Round → World → World × Option Bool
unfolding may_own own
acquire_loop yield_ms call key token [] w = (w, none)
acquire_loop yield_ms call key token (round ∷ rounds) w =
    let seen = round.before w in
    let later = acquire_loop yield_ms call key token rounds seen in
    if may_own yield_ms round.now seen key token
    then (
      own seen key
          (record { verb = call.verb; token = token; task = call.task; acquired_ms = round.now }),
      some true,
    )
    else if leb call.max_wait (round.now - call.start)
    then (seen, some false)
    else later

-- `waiters.remove(&key)` for a queue that is empty.
abbrev unless_empty : List LaneWaiter → Option (List LaneWaiter)
unless_empty [] = none
unless_empty (e ∷ es) = some (e ∷ es)

after_leave : ℕ → Option (List LaneWaiter) → Option (List LaneWaiter)
after_leave token none = none
after_leave token (some queue) = unless_empty (leave token queue)

after_failure : ℕ → Option (List LaneWaiter) → Option (List LaneWaiter)
after_failure token none = none
after_failure token (some queue) = some (deactivate token queue)

-- What the queue is left as when the loop has ended.
pub leave_queue : Bool → World → LaneKey → ℕ → World
unfolding after_leave after_failure
leave_queue acquired w key token =
    let entry = lookup key w.waiters in
    record w {
      waiters =
          put key (if acquired then after_leave token entry else after_failure token entry)
            w.waiters;
    }

holder_report : Option LaneOwner → ℕ → Option String × Option String × ℕ
holder_report none now = (none, none, 0)
holder_report (some owner) now = (nonempty owner.task, nonempty owner.verb, now - owner.acquired_ms)

-- The blocks after the loop: `leaving` and `reporting` are when they look at the maps.
pub conclude : Call → LaneKey → ℕ → Round → Round → World × Option Bool → World × Outcome
unfolding leave_queue holder_report
conclude call key token leaving reporting (w, none) = (w, queued)
conclude call key token leaving reporting (w, some true) =
    (leave_queue true (leaving.before w) key token, guarded (lane_guard key token))
conclude call key token leaving reporting (w, some false) =
    let seen = leaving.before w in
    let position = place_of (λ e. e.token == token) (queue_of (lookup key seen.waiters)) in
    let left = leave_queue false seen key token in
    let (contending, active, stale) =
      lane_queue_depth (queue_of (lookup key left.waiters)) leaving.now in
    let last = reporting.before left in
    let (holder_task, holder_verb, held) = holder_report (lookup key last.owners) reporting.now in
    (
      last,
      refused (record {
        lane = key.lane;
        waited_ms = reporting.now - call.start;
        waiters = contending;
        waiters_active = active;
        waiters_stale = stale;
        lane_position = position;
        lane_holder_task = holder_task;
        lane_holder_verb = holder_verb;
        lane_holder_held_ms = held;
        lane_holder_age_ms = held;
      }),
    )

module _ (parse : String → Option Value) (hash : String → ℕ) (yield_ms : ℕ) where
  pub acquire_within : Call → ℕ → List Round → Round → Round → World → World × Outcome
  unfolding enqueue_claim acquire_loop conclude
  acquire_within call now rounds leaving reporting w =
      elim (serial_lane_for_dispatch parse call.verb call.body) [
        | none ↦ (w, guarded (no_guard call.root))
        | some lane ↦
            let key : LaneKey = record { root = call.root; lane = lane } in
            let claim : Claim = record {
              verb = call.verb;
              task = call.task;
              identity = record { claimed_verb = call.verb; digest = hash call.body };
            } in
            let (claimed, token) = enqueue_claim w key claim now in
            conclude call key token leaving reporting
              (acquire_loop yield_ms call key token rounds claimed)
      ]

-- The `loop` of `acquire`, which takes any free lane, whoever queues for it; the answer is whether the
-- lane is taken yet.
take_free : LaneKey → LaneOwner → List Round → World → World × Bool
unfolding own
take_free key owner [] w = (w, false)
take_free key owner (round ∷ rounds) w =
    let seen = round.before w in
    let later = take_free key owner rounds seen in
    if is_none (lookup key seen.owners)
    then (own seen key (record owner { acquired_ms = round.now }), true)
    else later

unqueued : LaneKey → ℕ → World × Bool → World × Outcome
unqueued key token (w, true) = (w, guarded (lane_guard key token))
unqueued key token (w, false) = (w, queued)

module _ (parse : String → Option Value) where
  pub acquire : Text → String → String → List Round → World → World × Outcome
  unfolding take_free unqueued
  acquire root verb body rounds w = elim (serial_lane_for_dispatch parse verb body) [
    | none ↦ (w, guarded (no_guard root))
    | some lane ↦
        let key : LaneKey = record { root = root; lane = lane } in
        let owner : LaneOwner = record {
          verb = verb;
          token = w.next_token;
          task = "";
          acquired_ms = 0;
        } in
        unqueued key w.next_token
          (take_free key owner rounds (record w { next_token = w.next_token + 1 }))
  ]

abbrev pub owner_token : Option LaneOwner → ℕ → Bool
owner_token none token = false
owner_token (some owner) token = owner.token == token

pub still_owns : World → GmFairnessGuard → Bool
still_owns w g = elim g.lane [
  | none ↦ true
  | some lane ↦ owner_token (lookup (record { root = g.root; lane = lane }) w.owners) g.token
]

abbrev pub disown : World → LaneKey → World
disown w key = record w { owners = remove key w.owners }

-- `drop` of a guard.
pub drop_guard : World → GmFairnessGuard → World
drop_guard w g = elim g.lane [
  | none ↦ w
  | some lane ↦
      let key : LaneKey = record { root = g.root; lane = lane } in
      if owner_token (lookup key w.owners) g.token then disown w key else w
]

-- `requeue_lane_claimer_front`, for a lane that has a name.
pub requeue_lane_claimer_front : World → LaneKey → Claim → ℕ → World
requeue_lane_claimer_front w key claim now =
    let (queue, next) = requeue_front (queue_of (lookup key w.waiters)) claim now w.next_token in
    record w { waiters = insert key queue w.waiters; next_token = next }
