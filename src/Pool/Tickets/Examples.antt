-- ===== src/Pool/Tickets/Examples.antt =====
-- A concrete class of a pool of crates/agentplug-host/src/registry.rs: one slot, one thread that waits.
use agentplug.Base.{ℕ, ◌≤◌, ◌≡◌, refl, false, List, [], ◌∷◌, none, some, times, arith}
use agentplug.Pool.Holders.{new_class_queue}
use agentplug.Pool.Tickets.{Slot, take_ticket, try_slot, skip_abandoned, lock_first_free, grant}
use agentplug.Pool.Tickets.Progress.{Line, Reach, start, later, arrives, Reach-progress, Reach-fifo}

abbrev one_slot : List Slot
one_slot = record { locked = false; content = none } ∷ []

abbrev one_waits : Line
one_waits = record {
  world = record { tickets = (take_ticket new_class_queue).1; slots = one_slot };
  waits = 0 ∷ [];
}

one_waits-Reach : Reach one_waits
unfolding take_ticket
one_waits-Reach = later (start one_slot) arrives

Reach-progress_example :
    (ticket : ℕ) × (1 ≤ times ticket (0 ∷ []))
    × (ticket ≤ 0)
    × (slot : ℕ) × ((try_slot one_waits.world ticket).1 ≡ some slot)
Reach-progress_example = Reach-progress {l = one_waits} {x = 0} one_waits-Reach (omega arith) refl

abbrev two_wait : Line
two_wait = record {
  world = record { tickets = (take_ticket (take_ticket new_class_queue).1).1; slots = one_slot };
  waits = 1 ∷ 0 ∷ [];
}

two_wait-Reach : Reach two_wait
unfolding take_ticket
two_wait-Reach = later (later (start one_slot) arrives) arrives

Reach-fifo_example : 0 ≤ 1
unfolding try_slot skip_abandoned grant lock_first_free take_ticket
Reach-fifo_example =
    Reach-fifo {l = two_wait} {ticket = 0} {x = 1} {slot = 0} two_wait-Reach (omega arith) refl
      (omega arith)
