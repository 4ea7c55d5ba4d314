-- ===== src/ToolQueue.antt =====
-- The queue of the calls of one tool in one project: `ToolDispatchGuard` of
-- crates/agentplug-host/src/registry.rs. `TOOL_INFLIGHT` is a map from the tool's key to its queue; a
-- wait is a list of rounds, one for each time that the loop looks at the queue.
pub mod Exclusion
pub mod Stranded
mod Examples
use agentplug.Base.{
  ℕ, suc, ◌+◌, ◌-◌, max, ◌==◌, leb, Bool, true, false, not, ◌&&◌, List, [], ◌∷◌, ◌++◌, Option, none,
  some, String, if◌then◌else◌,
}
use agentplug.Base.Maps.{Text, text_key, lookup, insert, remove, put}
use agentplug.Lanes.Root.{lane_root_identity}
use agentplug.Verbs.Cost.{codes}
use agentplug.Verbs.Json.{Value}
use agentplug.Verbs.Lanes.{is_unserialized_dispatch}

pub record ToolQueue : Type 0 where
  pub next_ticket : ℕ
  pub now_serving : ℕ
  pub active : Bool

abbrev pub new_tool_queue : ToolQueue
new_tool_queue = record { next_ticket = 0; now_serving = 0; active = false }

abbrev or_new : Option ToolQueue → ToolQueue
or_new none = new_tool_queue
or_new (some q) = q

-- `entry(key).or_insert(..)` and the ticket taken from it.
pub enter : Option ToolQueue → ℕ × ToolQueue
enter entry = let q = or_new entry in (q.next_ticket, record q { next_ticket = q.next_ticket + 1 })

-- The test of the loop: the queue after the ticket is served, if it is its turn.
pub serve : ToolQueue → ℕ → Option ToolQueue
serve q ticket =
    if q.now_serving == ticket && not q.active
    then some (record q { now_serving = q.now_serving + 1; active = true })
    else none

-- The block after a wait that failed: what is left in the map.
pub give_up : ToolQueue → ℕ → Option ToolQueue
give_up q ticket =
    let q' = record q { now_serving = max q.now_serving (ticket + 1) } in
    if q'.next_ticket == q'.now_serving then none else some q'

-- `drop` on the queue that is in the map.
pub release : ToolQueue → Option ToolQueue
release q = if q.next_ticket == q.now_serving then none else some (record q { active = false })

pub record World : Type 0 where
  pub inflight : List (Text × ToolQueue)
  pub holders : List (Text × String)

-- `format!("{}\u{0}{}\u{0}{}", lane_root_identity(root), plugin, verb)`
pub tool_key : Text → String → String → Text
tool_key root plugin verb = lane_root_identity root ++ (0 ∷ codes plugin ++ (0 ∷ codes verb))

pub record ToolQueueWaitReport : Type 0 where
  pub queue_key : Text
  pub waited_ms : ℕ
  pub position : ℕ
  pub holder_task : Option String

-- `panicked` is the `expect("tool queue exists for its assigned ticket")`.
pub data Outcome : Type 0 where
  guarded : (key : Option Text) → Outcome
  refused : ToolQueueWaitReport → Outcome
  panicked queued : Outcome

pub record Round : Type 0 where
  pub before : World → World
  pub now : ℕ
  -- what others do during the wait, if the wait timed out
  pub timed_out : Option (World → World)

pub record Call : Type 0 where
  pub root : Text
  pub plugin : String
  pub verb : String
  pub body : String
  pub task : String
  pub start : ℕ
  pub max_wait : ℕ

put_queue : World → Text → Option ToolQueue → World
put_queue w key entry = record w { inflight = put key entry w.inflight }

-- The `if !acquired` block.
pub time_out : World → Text → ℕ → ℕ → World × Outcome
unfolding put_queue
time_out w key ticket waited = elim (lookup key w.inflight) [
  | none ↦ (w, panicked)
  | some q ↦ (
    put_queue w key (give_up q ticket),
    refused (record {
      queue_key = key;
      waited_ms = waited;
      position = ticket - q.now_serving;
      holder_task = lookup key w.holders;
    }),
  )
]

after_wait : World → Text → ℕ → ℕ → World × Outcome → Option (World → World) → World × Outcome
unfolding time_out
after_wait w key ticket waited later none = later
after_wait w key ticket waited later (some others) = time_out (others w) key ticket waited

finish : World → Call → Text → World × Outcome → Option ToolQueue → World × Outcome
unfolding put_queue
finish w call key waiting none = waiting
finish w call key waiting (some q) =
    let w' = put_queue w key (some q) in
    (record w' { holders = insert key call.task w'.holders }, guarded (some key))

look : World → Call → Text → ℕ → World × Outcome → Option ToolQueue → World × Outcome
unfolding finish
look w call key ticket waiting none = (w, panicked)
look w call key ticket waiting (some q) = finish w call key waiting (serve q ticket)

-- The `loop` of `acquire_within`.
pub acquire_loop : Call → Text → ℕ → List Round → World → World × Outcome
unfolding look after_wait time_out
acquire_loop call key ticket [] w = (w, queued)
acquire_loop call key ticket (round ∷ rounds) w =
    let seen = round.before w in
    let waited = round.now - call.start in
    let later = acquire_loop call key ticket rounds seen in
    look seen call key ticket
      (if leb call.max_wait waited
        then time_out seen key ticket waited
        else after_wait seen key ticket waited later round.timed_out)
      (lookup key seen.inflight)

module _ (parse : String → Option Value) where
  pub acquire_within : Call → List Round → World → World × Outcome
  unfolding acquire_loop put_queue
  acquire_within call rounds w =
      let key = tool_key call.root call.plugin call.verb in
      let (ticket, q) = enter (lookup key w.inflight) in
      let entered = put_queue w key (some q) in
      if is_unserialized_dispatch parse call.verb call.body
      then (w, guarded none)
      else acquire_loop call key ticket rounds entered

serve_or_wait : World → Text → World × Outcome → Option ToolQueue → World × Outcome
unfolding put_queue
serve_or_wait w key later none = later
serve_or_wait w key later (some q) = (put_queue w key (some q), guarded (some key))

look_unbounded : World → Text → ℕ → World × Outcome → Option ToolQueue → World × Outcome
unfolding serve_or_wait
look_unbounded w key ticket later none = (w, panicked)
look_unbounded w key ticket later (some q) = serve_or_wait w key later (serve q ticket)

-- The `loop` of `acquire`, which never times out and names no holder.
acquire_unbounded : Text → ℕ → List Round → World → World × Outcome
unfolding look_unbounded
acquire_unbounded key ticket [] w = (w, queued)
acquire_unbounded key ticket (round ∷ rounds) w =
    let seen = round.before w in
    let later = acquire_unbounded key ticket rounds seen in
    look_unbounded seen key ticket later (lookup key seen.inflight)

module _ (parse : String → Option Value) where
  pub acquire : Text → String → String → String → List Round → World → World × Outcome
  unfolding acquire_unbounded put_queue
  acquire root plugin verb body rounds w =
      let key = tool_key root plugin verb in
      let (ticket, q) = enter (lookup key w.inflight) in
      if is_unserialized_dispatch parse verb body
      then (w, guarded none)
      else acquire_unbounded key ticket rounds (put_queue w key (some q))

release_queue : World → Text → Option ToolQueue → World
unfolding put_queue
release_queue w key none = w
release_queue w key (some q) = elim (release q) [
  | none ↦ record (put_queue w key none) { holders = remove key w.holders }
  | some q' ↦ put_queue w key (some q')
]

-- `drop` of a guard.
pub drop_guard : World → Option Text → World
unfolding release_queue
drop_guard w none = w
drop_guard w (some key) = release_queue w key (lookup key w.inflight)
