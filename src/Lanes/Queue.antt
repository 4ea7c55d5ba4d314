-- ===== src/Lanes/Queue.antt =====
-- The waiters of one lane: `LaneWaiter`, `lane_admissible` and the queue operations of
-- `GmFairnessGuard` in crates/agentplug-host/src/registry.rs. The clock is an argument.
pub mod Order
pub mod Places
pub mod Retry
mod Examples
use agentplug.Base.{
  ℕ, suc, ◌+◌, ◌-◌, ◌==◌, leb, ltb, Bool, true, false, not, ◌&&◌, ◌||◌, List, [], ◌∷◌, ◌++◌, Option,
  none, some, String, str_eq, if◌then◌else◌, length, count, keep, any, all,
}
use agentplug.Verbs.Lanes.{lane_yield_class}

abbrev pub lane_ticket_stale_ms : ℕ
lane_ticket_stale_ms = 30_000

abbrev pub lane_ticket_ttl_ms : ℕ
lane_ticket_ttl_ms = 600_000

abbrev pub lane_network_yield_ms : ℕ
lane_network_yield_ms = 120_000

-- `lane_claim_identity`: the verb and the hash of the body that the source prints after it.
pub record Identity : Type 0 where
  pub claimed_verb : String
  pub digest : ℕ

abbrev pub same_identity : Identity → Identity → Bool
same_identity a b = str_eq a.claimed_verb b.claimed_verb && a.digest == b.digest

pub record LaneWaiter : Type 0 where
  pub token : ℕ
  pub task : String
  pub identity : Identity
  pub verb : String
  pub claimed_ms : ℕ
  pub last_seen_ms : ℕ
  pub active : Bool

abbrev pub is_stale : ℕ → LaneWaiter → Bool
is_stale now entry = leb lane_ticket_stale_ms (now - entry.last_seen_ms)

-- What the closure of `lane_admissible` asks of an entry ahead of one whose yield class is `mine`.
pub lets_pass : ℕ → ℕ → ℕ → LaneWaiter → Bool
lets_pass yield_ms now mine entry =
    let theirs = lane_yield_class entry.verb in
    if is_stale now entry
    then true
    else if leb mine theirs
    then false
    else ltb (now - entry.claimed_ms) yield_ms

-- The entries ahead of the one with the token, and that entry.
ahead_of : ℕ → List LaneWaiter → Option (List LaneWaiter × LaneWaiter)
ahead_of token [] = none
ahead_of token (e ∷ es) =
    if e.token == token
    then some ([], e)
    else elim (ahead_of token es) [ none ↦ none | some (front, mine) ↦ some (e ∷ front, mine) ]

none_blocks : ℕ → ℕ → Option (List LaneWaiter × LaneWaiter) → Bool
none_blocks yield_ms now none = false
none_blocks yield_ms now (some (front, mine)) =
    all (lets_pass yield_ms now (lane_yield_class mine.verb)) front

pub lane_admissible : ℕ → ℕ → List LaneWaiter → ℕ → Bool
unfolding ahead_of none_blocks
lane_admissible yield_ms now queue token = none_blocks yield_ms now (ahead_of token queue)

-- (contending, active, stale)
unfoldable pub lane_queue_depth : List LaneWaiter → ℕ → ℕ × ℕ × ℕ
lane_queue_depth queue now =
    let contending = count (λ entry. entry.active || not (is_stale now entry)) queue in
    (contending, count (λ entry. entry.active) queue, length queue - contending)

abbrev resumes : Identity → LaneWaiter → Bool
resumes identity entry = same_identity entry.identity identity && not entry.active

abbrev behind : LaneWaiter → Option (List LaneWaiter × ℕ) → Option (List LaneWaiter × ℕ)
behind e none = none
behind e (some (es, token)) = some (e ∷ es, token)

-- The entry that a retry of the same request takes up again.
resume : ℕ → String → Identity → List LaneWaiter → Option (List LaneWaiter × ℕ)
resume now task identity [] = none
resume now task identity (e ∷ es) =
    if resumes identity e
    then some (record e { last_seen_ms = now; task = task; active = true } ∷ es, e.token)
    else behind e (resume now task identity es)

pub retain_recent : ℕ → List LaneWaiter → List LaneWaiter
retain_recent now = keep (λ entry. ltb (now - entry.last_seen_ms) lane_ticket_ttl_ms)

pub record Claim : Type 0 where
  pub verb : String
  pub task : String
  pub identity : Identity

abbrev pub new_waiter : Claim → ℕ → ℕ → Bool → LaneWaiter
new_waiter claim now token active = record {
  token = token;
  task = claim.task;
  identity = claim.identity;
  verb = claim.verb;
  claimed_ms = now;
  last_seen_ms = now;
  active = active;
}

enqueue : List LaneWaiter → Claim → ℕ → ℕ → Option (List LaneWaiter × ℕ) → List LaneWaiter × ℕ × ℕ
enqueue queue claim now next_token (some (queue', token)) = (queue', token, next_token)
enqueue queue claim now next_token none =
    (queue ++ new_waiter claim now next_token true ∷ [], next_token, next_token + 1)

-- The block of `acquire_within` that takes a place in the queue: the queue, the token of the place, and
-- the next token.
pub claim_place : List LaneWaiter → Claim → ℕ → ℕ → List LaneWaiter × ℕ × ℕ
unfolding enqueue resume retain_recent
claim_place queue claim now next_token =
    let recent = retain_recent now queue in
    enqueue recent claim now next_token (resume now claim.task claim.identity recent)

pub leave : ℕ → List LaneWaiter → List LaneWaiter
leave token = keep (λ entry. not (entry.token == token))

-- The entry of a wait that failed stays in its place and is no longer active.
pub deactivate : ℕ → List LaneWaiter → List LaneWaiter
deactivate token [] = []
deactivate token (e ∷ es) =
    if e.token == token then record e { active = false } ∷ es else e ∷ deactivate token es

-- `requeue_lane_claimer_front`: the queue and the next token.
pub requeue_front : List LaneWaiter → Claim → ℕ → ℕ → List LaneWaiter × ℕ
requeue_front queue claim now next_token =
    if any (λ entry. same_identity entry.identity claim.identity) queue
    then (queue, next_token)
    else (new_waiter claim now next_token false ∷ queue, next_token + 1)
