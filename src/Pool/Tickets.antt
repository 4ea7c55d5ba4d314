-- ===== src/Pool/Tickets.antt =====
-- The tickets of one cost class: `ClassTicketQueue` of crates/agentplug-host/src/registry.rs, by which
-- `acquire_slot_until` hands out the slots of a pool in the order of arrival.
pub mod Order
pub mod Progress
mod Examples
use agentplug.Base.{
  ℕ, zero, suc, ◌+◌, ◌-◌, ◌==◌, Bool, true, false, not, List, [], ◌∷◌, ◌++◌, Option, none, some,
  String, leb, if◌then◌else◌, length, set, keep,
}
use agentplug.Pool.Holders.{ClassTicketQueue}

pub waiting : ClassTicketQueue → ℕ
waiting q = q.next_ticket - q.now_serving

shift : Option ℕ → Option ℕ
shift none = none
shift (some i) = some (i + 1)

-- `iter().position(|t| *t == x)`
position : ℕ → List ℕ → Option ℕ
unfolding shift
position x [] = none
position x (t ∷ ts) = if t == x then some 0 else shift (position x ts)

drop_last : List ℕ → List ℕ
drop_last [] = []
drop_last (t ∷ []) = []
drop_last (t ∷ u ∷ ts) = t ∷ drop_last (u ∷ ts)

last_or : ℕ → List ℕ → ℕ
last_or d [] = d
last_or d (t ∷ ts) = last_or t ts

-- `Vec::swap_remove`: the last element takes the place of the one removed.
swap_remove : List ℕ → ℕ → List ℕ
unfolding drop_last last_or
swap_remove ts i = set (drop_last ts) i (last_or 0 ts)

-- The `while let` of `skip_abandoned`; each round takes one ticket off `abandoned`.
skip_loop : ℕ → ClassTicketQueue → ClassTicketQueue
unfolding position swap_remove
skip_loop zero q = q
skip_loop (suc fuel) q = elim (position q.now_serving q.abandoned) [
  | none ↦ q
  | some pos ↦
      skip_loop fuel
        (record q { abandoned = swap_remove q.abandoned pos; now_serving = q.now_serving + 1 })
]

pub skip_abandoned : ClassTicketQueue → ClassTicketQueue
unfolding skip_loop
skip_abandoned q = skip_loop (length q.abandoned) q

pub abandon : ClassTicketQueue → ℕ → ClassTicketQueue
unfolding skip_abandoned
abandon q ticket =
    if ticket == q.now_serving
    then skip_abandoned (record q { now_serving = q.now_serving + 1 })
    else record q { abandoned = q.abandoned ++ ticket ∷ [] }

-- The first block of `acquire_slot_until`: the ticket and the queue after it.
pub take_ticket : ClassTicketQueue → ℕ × ClassTicketQueue
take_ticket q = (q.next_ticket, record q { next_ticket = q.next_ticket + 1 })

-- A slot: locked by a running dispatch or not, and the hash of the instance in it. A poisoned lock is
-- recovered, so it counts as a free one.
pub record Slot : Type 0 where
  pub locked : Bool
  pub content : Option String

locked_later : Slot → Option (ℕ × List Slot) → Option (ℕ × List Slot)
locked_later s none = none
locked_later s (some (i, slots)) = some (i + 1, s ∷ slots)

-- The `for slot in &self.slots` with `try_lock`: the first slot that is free.
pub lock_first_free : List Slot → Option (ℕ × List Slot)
unfolding locked_later
lock_first_free [] = none
lock_first_free (s ∷ slots) =
    if s.locked
    then locked_later s (lock_first_free slots)
    else some (0, record s { locked = true } ∷ slots)

pub record SlotWorld : Type 0 where
  pub tickets : ClassTicketQueue
  pub slots : List Slot

grant : ClassTicketQueue → List Slot → Option (ℕ × List Slot) → SlotWorld × Option ℕ
grant q slots none = (record { tickets = q; slots = slots }, none)
grant q slots (some (i, locked)) =
    (record { tickets = record q { now_serving = q.now_serving + 1 }; slots = locked }, some i)

-- The block under the lock in the `loop`: the slot that is granted, if it is this ticket's turn.
pub try_slot : SlotWorld → ℕ → SlotWorld × Option ℕ
unfolding grant
try_slot w my_ticket =
    let q = skip_abandoned w.tickets in
    if q.now_serving == my_ticket
    then grant q w.slots (lock_first_free w.slots)
    else (record w { tickets = q }, none)

-- Where an acquisition stands after the rounds that it was given; times are those since its start.
pub data Acquired : Type 0 where
  granted : (slot waited_ms : ℕ) → Acquired
  gave_up : (waited_ms : ℕ) → Acquired
  queued : Acquired

pub record SlotRound : Type 0 where
  pub before : SlotWorld → SlotWorld
  pub now : ℕ

past : Option ℕ → ℕ → Bool
past none now = false
past (some deadline) now = leb deadline now

end_round : ℕ → SlotWorld × Acquired → SlotWorld × Option ℕ → SlotWorld × Acquired
end_round waited later (w, some slot) = (w, granted slot waited)
end_round waited later (w, none) = later

-- The `loop` of `acquire_slot_until`.
pub acquire_loop : ℕ → ℕ → Option ℕ → List SlotRound → SlotWorld → SlotWorld × Acquired
unfolding past end_round
acquire_loop ticket start give_up_at [] w = (w, queued)
acquire_loop ticket start give_up_at (round ∷ rounds) w =
    let tried = try_slot (round.before w) ticket in
    let later = acquire_loop ticket start give_up_at rounds tried.0 in
    end_round (round.now - start)
      (if past give_up_at round.now
        then (
          record (tried.0) { tickets = abandon tried.0.tickets ticket },
          gave_up (round.now - start),
        )
        else later)
      tried

pub acquire_slot_until : ℕ → Option ℕ → List SlotRound → SlotWorld → SlotWorld × Acquired
unfolding acquire_loop take_ticket
acquire_slot_until start give_up_at rounds w =
    let (ticket, q) = take_ticket w.tickets in
    acquire_loop ticket start give_up_at rounds (record w { tickets = q })
