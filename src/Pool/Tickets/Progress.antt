-- ===== src/Pool/Tickets/Progress.antt =====
-- Slots go to waiting threads in order of arrival, and a free slot is never withheld: every
-- interleaving of arrivals, attempts, give-ups and released slots on one class of a pool.
use agentplug.Base.{
  ℕ, ◌+◌, ◌≤◌, ◌≡◌, inl, inr, ◌==◌, true, not, List, [], ◌∷◌, Option, none, some, any, times,
  without, without-times, arith, Bool-cases, ==_iff,
}
use agentplug.Pool.Holders.{ClassTicketQueue, new_class_queue}
use agentplug.Pool.Tickets.{
  skip_abandoned, abandon, take_ticket, Slot, SlotWorld, locked_later, lock_first_free, grant,
  try_slot,
}
use agentplug.Pool.Tickets.Order.{
  Accounts, skip_abandoned_lem, new_class_queue-Accounts, take_ticket-Accounts, abandon-Accounts,
}

-- What an attempt with `ticket` does: with no slot it leaves the accounts; with one it serves the
-- ticket, which is the lowest of all that are waited for.
abbrev pub Tries : ℕ → List ℕ → SlotWorld × Option ℕ → Type 0
Tries ticket waits (w, none) = Accounts w.tickets waits
Tries ticket waits (w, some slot) =
    Accounts w.tickets (without ticket waits) × ((t : ℕ) → 1 ≤ times t waits → ticket ≤ t)

module _ (ticket : ℕ) (waits : List ℕ) (mine : 1 ≤ times ticket waits) where
  grant-Tries :
      (q : ClassTicketQueue) (slots : List Slot) (o : Option (ℕ × List Slot))
      → Accounts q waits
      → times q.now_serving q.abandoned ≡ 0
      → q.now_serving ≡ ticket
      → Tries ticket waits (grant q slots o)
  unfolding grant
  grant-Tries q slots none v clear turn = v
  grant-Tries q slots (some (i, locked)) v clear turn = (
    record {
      in_order = ground (arith, v.account ticket);
      account = λ t. ground (arith, v.account t, v.account ticket, without-times ticket t waits);
    },
    λ t waited. ground (arith, v.account t),
  )

  pub try_slot-Tries :
      (w : SlotWorld) → Accounts w.tickets waits → Tries ticket waits (try_slot w ticket)
  unfolding try_slot
  try_slot-Tries w v =
      let (kept, clear) = skip_abandoned_lem w.tickets waits v in
      elim (Bool-cases ((skip_abandoned w.tickets).now_serving == ticket)) [
        | inl turn ↦ rw turn (
            grant-Tries (skip_abandoned w.tickets) w.slots (lock_first_free w.slots) kept clear
              ((==_iff _ ticket).0 turn))
        | inr not_yet ↦ rw not_yet kept
      ]

-- A pool's class as the threads see it: its tickets and slots, and the tickets that threads wait with.
pub record Line : Type 0 where
  pub world : SlotWorld
  pub waits : List ℕ

pub after_try : Line → ℕ → SlotWorld × Option ℕ → Line
after_try l ticket (w, none) = record { world = w; waits = l.waits }
after_try l ticket (w, some slot) = record { world = w; waits = without ticket l.waits }

-- One critical section of one thread; `frees` is whatever happens to the slots' locks.
pub data Step (l : Line) : Line → Type 0 where
  arrives : Step l (record {
    world = record (l.world) { tickets = (take_ticket l.world.tickets).1 };
    waits = (take_ticket l.world.tickets).0 ∷ l.waits;
  })
  tries :
      (ticket : ℕ)
      → 1 ≤ times ticket l.waits
      → Step l (after_try l ticket (try_slot l.world ticket))
  gives_up :
      (ticket : ℕ)
      → 1 ≤ times ticket l.waits
      → Step l (record {
        world = record (l.world) { tickets = abandon l.world.tickets ticket };
        waits = without ticket l.waits;
      })
  frees : (slots : List Slot) → Step l (record l { world = record (l.world) { slots = slots } })

pub data Reach : Line → Type 0 where
  start :
      (slots : List Slot)
      → Reach (record { world = record { tickets = new_class_queue; slots = slots }; waits = [] })
  later : {l m : Line} → Reach l → Step l m → Reach m

after_try-Accounts :
    (l : Line) (ticket : ℕ) (r : SlotWorld × Option ℕ)
    → Tries ticket l.waits r
    → let m = after_try l ticket r in Accounts m.world.tickets m.waits
unfolding after_try
after_try-Accounts l ticket (w, none) v = v
after_try-Accounts l ticket (w, some slot) v = v.0

Step-Accounts :
    {l m : Line} → Step l m → Accounts l.world.tickets l.waits → Accounts m.world.tickets m.waits
Step-Accounts {l} arrives v = take_ticket-Accounts l.world.tickets l.waits v
Step-Accounts {l} (tries ticket mine) v =
    after_try-Accounts l ticket _ (try_slot-Tries ticket l.waits mine l.world v)
Step-Accounts {l} (gives_up ticket mine) v = abandon-Accounts l.world.tickets l.waits ticket mine v
Step-Accounts (frees slots) v = v

-- In every reachable line each unserved ticket is waited for or abandoned, exactly once.
pub Reach-Accounts : {l : Line} → Reach l → Accounts l.world.tickets l.waits
Reach-Accounts (start slots) = new_class_queue-Accounts
Reach-Accounts (later r s) = Step-Accounts s (Reach-Accounts r)

lock_first_free-some :
    (slots : List Slot)
    → any (λ s. not s.locked) slots ≡ true
    → (r : ℕ × List Slot) × (lock_first_free slots ≡ some r)
unfolding lock_first_free locked_later
lock_first_free-some [] h = cc
lock_first_free-some (s ∷ slots) h = elim (Bool-cases s.locked) [
  | inr free ↦ ((0, record s { locked = true } ∷ slots), rw free)
  | inl busy ↦
      let (got, e) = lock_first_free-some slots (ground arith) in
      ((got.0 + 1, s ∷ got.1), rw (busy, e))
]

-- However threads arrive, try and give up: while a slot is free and somebody waits, one of the waiting
-- tickets, the lowest, gets a slot at its next attempt. Tickets that were given up block nobody.
pub Reach-progress :
    {l : Line} {x : ℕ}
    → Reach l
    → 1 ≤ times x l.waits
    → any (λ s. not s.locked) l.world.slots ≡ true
    → (ticket : ℕ) × (1 ≤ times ticket l.waits)
      × (ticket ≤ x)
      × (slot : ℕ) × ((try_slot l.world ticket).1 ≡ some slot)
unfolding try_slot grant
Reach-progress {l} {x} r waited free =
    let v = Reach-Accounts r in
    let (kept, clear) = skip_abandoned_lem l.world.tickets l.waits v in
    let (got, e) = lock_first_free-some l.world.slots free in
    let now = (skip_abandoned l.world.tickets).now_serving in
    (
      now,
      ground (arith, kept.account x, kept.account now),
      ground (arith, kept.account x),
      got.0,
      ground (arith, e),
    )

Tries-lowest :
    (ticket x slot : ℕ) (waits : List ℕ) (r : SlotWorld × Option ℕ)
    → Tries ticket waits r
    → r.1 ≡ some slot
    → 1 ≤ times x waits
    → ticket ≤ x
Tries-lowest ticket x slot waits (w, none) v e waited = cc
Tries-lowest ticket x slot waits (w, some got) v e waited = v.1 x waited

-- Slots are handed out in the order of arrival: in every reachable line, a waiting ticket that an attempt
-- grants a slot is no later than any other ticket that waits.
pub Reach-fifo :
    {l : Line} {ticket x slot : ℕ}
    → Reach l
    → 1 ≤ times ticket l.waits
    → (try_slot l.world ticket).1 ≡ some slot
    → 1 ≤ times x l.waits
    → ticket ≤ x
Reach-fifo {l} {ticket} {x} {slot} r mine granted waited =
    Tries-lowest ticket x slot l.waits (try_slot l.world ticket)
      (try_slot-Tries ticket l.waits mine l.world (Reach-Accounts r)) granted waited
