-- ===== src/Lanes/Reports.antt =====
-- What a status reply says of a lane: `lane_queue_state`, `lane_waiter_count`, `lane_holds` and
-- `lane_waiter_detail` of crates/agentplug-host/src/registry.rs.
use agentplug.Base.{
  ℕ, ◌+◌, ◌-◌, ◌≡◌, refl, Bool, not, ◌&&◌, ◌||◌, List, [], ◌∷◌, length, count, count-le-length,
  Option, none, some, String, str_eq, if◌then◌else◌, arith,
}
use agentplug.Base.Maps.{Text, text_eq, lookup}
use agentplug.Verbs.Lanes.{Lane, lane_name}
use agentplug.Lanes.Keys.{LaneKey, lane_key}
use agentplug.Lanes.Queue.{LaneWaiter, is_stale, lane_queue_depth}
use agentplug.Lanes.Owners.{LaneOwner, World, queue_of, nonempty, place_of}

pub record LaneQueueState : Type 0 where
  pub lane_position : Option ℕ
  pub lane_holder_age_ms : Option ℕ
  pub lane_holder_task : Option String
  pub lane_holder_verb : Option String
  pub lane_waiters : ℕ
  pub lane_waiters_active : ℕ
  pub lane_waiters_stale : ℕ

abbrev unassigned : LaneQueueState
unassigned = record {
  lane_position = none;
  lane_holder_age_ms = none;
  lane_holder_task = none;
  lane_holder_verb = none;
  lane_waiters = 0;
  lane_waiters_active = 0;
  lane_waiters_stale = 0;
}

-- `lane.and_then(lane_name)`
named : Option String → Option Lane
named none = none
named (some name) = lane_name name

holder_of : ℕ → Option LaneOwner → Option ℕ × Option String × Option String
holder_of now none = (none, none, none)
holder_of now (some owner) =
    (some (now - owner.acquired_ms), nonempty owner.task, nonempty owner.verb)

state_at : World → ℕ → LaneKey → String → LaneQueueState
unfolding holder_of
state_at w now key task =
    let queue = queue_of (lookup key w.waiters) in
    let (age, holder_task, holder_verb) = holder_of now (lookup key w.owners) in
    let (contending, active, stale) = lane_queue_depth queue now in
    record {
      lane_position = place_of (λ entry. str_eq entry.task task) queue;
      lane_holder_age_ms = age;
      lane_holder_task = holder_task;
      lane_holder_verb = holder_verb;
      lane_waiters = contending;
      lane_waiters_active = active;
      lane_waiters_stale = stale;
    }

state_for : World → ℕ → Text → String → Option Lane → LaneQueueState
unfolding state_at
state_for w now root task none = unassigned
state_for w now root task (some lane) = state_at w now (record { root = root; lane = lane }) task

pub lane_queue_state : World → ℕ → Text → Option String → String → LaneQueueState
unfolding state_for named
lane_queue_state w now root name task = state_for w now root task (named name)

count_for : World → Text → Option Lane → ℕ
count_for w root none = 0
count_for w root (some lane) =
    length (queue_of (lookup (record { root = root; lane = lane }) w.waiters))

pub lane_waiter_count : World → Text → String → ℕ
unfolding count_for
lane_waiter_count w root name = count_for w root (lane_name name)

pub record LaneHold : Type 0 where
  pub lane : Lane
  pub verb : String
  pub task : String
  pub held_ms : ℕ
  pub waiters : ℕ
  pub waiters_active : ℕ
  pub waiters_stale : ℕ

hold_of : World → ℕ → LaneKey → LaneOwner → LaneHold
hold_of w now key owner =
    let (contending, active, stale) = lane_queue_depth (queue_of (lookup key w.waiters)) now in
    record {
      lane = key.lane;
      verb = owner.verb;
      task = owner.task;
      held_ms = now - owner.acquired_ms;
      waiters = contending;
      waiters_active = active;
      waiters_stale = stale;
    }

holds_among : World → ℕ → Text → List (LaneKey × LaneOwner) → List LaneHold
unfolding hold_of
holds_among w now root [] = []
holds_among w now root ((key, owner) ∷ owners) =
    if text_eq key.root root
    then hold_of w now (record { root = root; lane = key.lane }) owner
      ∷ holds_among w now root owners
    else holds_among w now root owners

pub lane_holds : World → ℕ → Text → List LaneHold
unfolding holds_among
lane_holds w now root = holds_among w now root w.owners

pub record LaneWaiterDetail : Type 0 where
  pub lane : Lane
  pub verb : String
  pub task : String
  pub position : ℕ
  pub waiting_ms : ℕ
  pub active : Bool
  pub stale : Bool

details_from : Lane → ℕ → ℕ → List LaneWaiter → List LaneWaiterDetail
details_from lane now index [] = []
details_from lane now index (entry ∷ queue) =
    record {
      lane = lane;
      verb = entry.verb;
      task = entry.task;
      position = index + 1;
      waiting_ms = now - entry.claimed_ms;
      active = entry.active;
      stale = not entry.active && is_stale now entry;
    }
    ∷ details_from lane now (index + 1) queue

details_for : World → ℕ → Text → Option Lane → List LaneWaiterDetail
unfolding details_from
details_for w now root none = []
details_for w now root (some lane) =
    details_from lane now 0 (queue_of (lookup (record { root = root; lane = lane }) w.waiters))

pub lane_waiter_detail : World → ℕ → Text → String → List LaneWaiterDetail
unfolding details_for
lane_waiter_detail w now root name = details_for w now root (lane_name name)

-- The numbers of a state reply, by the details of the same queue.
abbrev pub Agrees : List LaneWaiterDetail → ℕ × ℕ × ℕ → ℕ → Type 0
Agrees details (contending, active, stale) all_waiters =
    (contending ≡ count (λ d. not d.stale) details)
    × (active ≡ count (λ d. d.active) details)
    × (stale ≡ count (λ d. d.stale) details)
    × (all_waiters ≡ length details)

details_from-Agrees :
    (lane : Lane) (now index : ℕ) (queue : List LaneWaiter)
    → Agrees (details_from lane now index queue) (lane_queue_depth queue now) (length queue)
unfolding details_from lane_queue_depth
details_from-Agrees lane now index [] = (refl, refl, refl, refl)
details_from-Agrees lane now index (entry ∷ queue) =
    let rest = details_from-Agrees lane now (index + 1) queue in
    let fits = count-le-length (λ e. e.active || not (is_stale now e)) queue in
    (
      ground (arith, rest.0),
      ground (arith, rest.1),
      ground (arith, rest.2, fits),
      ground (arith, rest.3),
    )

reports_for-Agrees :
    (w : World) (now : ℕ) (root : Text) (task : String) (lane : Option Lane)
    → let s = state_for w now root task lane in
      Agrees
        (details_for w now root lane)
        (s.lane_waiters, s.lane_waiters_active, s.lane_waiters_stale)
        (count_for w root lane)
unfolding state_for details_for count_for state_at
reports_for-Agrees w now root task none = (refl, refl, refl, refl)
reports_for-Agrees w now root task (some lane) =
    details_from-Agrees lane now 0
      (queue_of (lookup (record { root = root; lane = lane }) w.waiters))

-- The state reply of a lane, its list of waiters and its count of waiters agree: the waiters that it
-- counts as contending, active and stale are those that the list says are not stale, active and stale,
-- and the count is the length of the list.
pub lane_reports_agree :
    (w : World) (now : ℕ) (root : Text) (name : String) (task : String)
    → let s = lane_queue_state w now root (some name) task in
      Agrees
        (lane_waiter_detail w now root name)
        (s.lane_waiters, s.lane_waiters_active, s.lane_waiters_stale)
        (lane_waiter_count w root name)
unfolding lane_queue_state lane_waiter_detail lane_waiter_count named
lane_reports_agree w now root name task = reports_for-Agrees w now root task (lane_name name)
