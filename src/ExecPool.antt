-- ===== src/ExecPool.antt =====
-- The pool of execution workers: crates/agentplug-host/src/exec_pool.rs. `GATE` is a gate, and `size` is
-- what `gm_pool_size` answers, which no call changes.
pub mod Order
mod Examples
use agentplug.Base.{
  ℕ, ◌+◌, ◌-◌, ◌==◌, ltb, Bool, true, false, ◌&&◌, List, [], ◌∷◌, ◌++◌, Option, none, some,
  if◌then◌else◌,
}

pub record Gate : Type 0 where
  pub running : ℕ
  pub next_ticket : ℕ
  pub queue : List ℕ

abbrev pub gate : Gate
gate = record { running = 0; next_ticket = 0; queue = [] }

-- `acquire` up to its loop: the ticket and the gate.
pub take_ticket : Gate → ℕ × Gate
take_ticket g = (
  g.next_ticket,
  record g { next_ticket = g.next_ticket + 1; queue = g.queue ++ g.next_ticket ∷ [] },
)

-- `queue.front() == Some(&ticket)`
abbrev pub is_front : ℕ → List ℕ → Bool
is_front ticket [] = false
is_front ticket (t ∷ queue) = t == ticket

abbrev pub pop_front : List ℕ → List ℕ
pop_front [] = []
pop_front (t ∷ queue) = queue

-- One turn of the loop of `acquire`: what the gate is after it when the lease is given, and nothing when
-- the call waits on.
pub try_start : ℕ → ℕ → Gate → Option Gate
try_start size ticket g =
    if ltb g.running size && is_front ticket g.queue
    then some (record g { running = g.running + 1; queue = pop_front g.queue })
    else none

-- The loop over the gates that its wakes find.
pub acquire_loop : ℕ → ℕ → List Gate → Option Gate
unfolding try_start
acquire_loop size ticket [] = none
acquire_loop size ticket (g ∷ wakes) = elim (try_start size ticket g) [
  | none ↦ acquire_loop size ticket wakes
  | some g' ↦ some g'
]

-- `drop` of a lease.
pub drop_lease : Gate → Gate
drop_lease g = record g { running = g.running - 1 }
