-- ===== src/ExecPool/Order.antt =====
-- The leases stay within the size of the pool, and calls get them in the order in which they came.
use agentplug.Base.{
  ℕ, ◌+◌, ◌-◌, ◌≤◌, ◌<◌, ◌≡◌, refl, ◌==◌, ltb, List, [], ◌∷◌, ◌++◌, some, times, without,
  without-times, arith, Bool-cases, inl, inr, ltb→lt,
}
use agentplug.ExecPool.{Gate, gate, take_ticket, try_start, drop_lease}

-- The gate, the tickets of the calls in `acquire`, and how many leases are held.
pub record Workers : Type 0 where
  pub gate : Gate
  pub waits : List ℕ
  pub leases : ℕ

module _ (size : ℕ) where
  -- The critical sections of the threads.
  pub data Step (w : Workers) : Workers → Type 0 where
    arrives :
        Step w
          (record w { gate = (take_ticket w.gate).1; waits = (take_ticket w.gate).0 ∷ w.waits })
    starts :
        (ticket : ℕ) {g : Gate}
        → 1 ≤ times ticket w.waits
        → try_start size ticket w.gate ≡ some g
        → Step w (record { gate = g; waits = without ticket w.waits; leases = w.leases + 1 })
    drops : 1 ≤ w.leases → Step w (record w { gate = drop_lease w.gate; leases = w.leases - 1 })

  pub data Reach : Workers → Type 0 where
    start : Reach (record { gate = gate; waits = []; leases = 0 })
    later : {w w' : Workers} → Reach w → Step w w' → Reach w'

-- Tickets from `low` on, below `high`, each later than the one before.
abbrev Rising : ℕ → ℕ → List ℕ → Type 0
Rising low high [] = low ≤ high
Rising low high (t ∷ ts) = (low ≤ t) × Rising (t + 1) high ts

Rising-lower :
    (low low' high : ℕ) (ts : List ℕ) → low' ≤ low → Rising low high ts → Rising low' high ts
Rising-lower low low' high [] least h = omega (arith, least, h)
Rising-lower low low' high (t ∷ ts) least h = (omega (arith, least, h.0), h.1)

Rising-append :
    (low high : ℕ) (ts : List ℕ) → Rising low high ts → Rising low (high + 1) (ts ++ high ∷ [])
Rising-append low high [] h = (h, omega arith)
Rising-append low high (t ∷ ts) h = (h.0, Rising-append (t + 1) high ts h.1)

Rising-below : (low high t : ℕ) (ts : List ℕ) → t < low → Rising low high ts → times t ts ≡ 0
Rising-below low high t [] below h = refl
Rising-below low high t (s ∷ ts) below h =
    ground (arith, below, h.0, Rising-below (s + 1) high t ts (omega (arith, below, h.0)) h.1)

Rising-le : (low high : ℕ) (ts : List ℕ) → Rising low high ts → low ≤ high
Rising-le low high [] h = h
Rising-le low high (t ∷ ts) h = omega (arith, h.0, Rising-le (t + 1) high ts h.1)

Rising-above : (low high t : ℕ) (ts : List ℕ) → high ≤ t → Rising low high ts → times t ts ≡ 0
Rising-above low high t [] above h = refl
Rising-above low high t (s ∷ ts) above h =
    ground (arith, above, Rising-le (s + 1) high ts h.1, Rising-above (s + 1) high t ts above h.1)

times-append : (t s : ℕ) (ts : List ℕ) → times t (ts ++ s ∷ []) ≡ times t ts + times t (s ∷ [])
times-append t s [] = omega arith
times-append t s (r ∷ ts) = omega (arith, times-append t s ts)

record IsOrdered (size : ℕ) (w : Workers) : Type 0 where
  pub leased : w.gate.running ≡ w.leases
  pub bounded : w.leases ≤ size
  pub queued : (t : ℕ) → times t w.waits ≡ times t w.gate.queue
  pub rising : Rising 0 w.gate.next_ticket w.gate.queue

take_ticket-IsOrdered :
    (size : ℕ) (w : Workers)
    → IsOrdered size w
    → IsOrdered size
        (record w { gate = (take_ticket w.gate).1; waits = (take_ticket w.gate).0 ∷ w.waits })
unfolding take_ticket
take_ticket-IsOrdered size w v = record {
  leased = v.leased;
  bounded = v.bounded;
  queued = λ t. omega (arith, v.queued t, times-append t w.gate.next_ticket w.gate.queue);
  rising = Rising-append 0 w.gate.next_ticket w.gate.queue v.rising;
}

-- A call that gets a lease: the gate had room, and the call was the first of the queue.
module _ (size ticket running next : ℕ) where
  abbrev gate_of : List ℕ → Gate
  gate_of queue = record { running = running; next_ticket = next; queue = queue }

  abbrev Started : List ℕ → Gate → Type 0
  Started queue g' =
      (running < size)
      × ((rest : List ℕ) × (queue ≡ ticket ∷ rest)
          × (g' ≡ record { running = running + 1; next_ticket = next; queue = rest }))

  started :
      (queue : List ℕ) {g' : Gate}
      → try_start size ticket (gate_of queue) ≡ some g'
      → Started queue g'
  unfolding try_start
  started [] e = elim (Bool-cases (ltb running size)) [
    | inl room ↦ absurd (cc (rw room at e))
    | inr full ↦ absurd (cc (rw full at e))
  ]
  started (t ∷ rest) e = elim (Bool-cases (ltb running size)) [
    | inl room ↦ elim (Bool-cases (t == ticket)) [
      | inl first ↦
          let here = (rw (room, first) at e) in
          (ltb→lt running size room, (rest, ground (arith, first), cc here))
      | inr other ↦ absurd (cc (rw (room, other) at e))
    ]
    | inr full ↦ absurd (cc (rw full at e))
  ]

start-IsOrdered :
    (size : ℕ) (w : Workers) (ticket : ℕ) {g : Gate}
    → IsOrdered size w
    → try_start size ticket w.gate ≡ some g
    → IsOrdered size (record { gate = g; waits = without ticket w.waits; leases = w.leases + 1 })
start-IsOrdered size w ticket {g} v e =
    let (room, (rest, front, is)) =
      started size ticket w.gate.running w.gate.next_ticket w.gate.queue e in
    let rising = (rw front at v.rising) in
    rw is (record {
      leased = omega (arith, v.leased);
      bounded = omega (arith, v.leased, room);
      queued = λ t. ground (
        arith,
        without-times ticket t w.waits,
        v.queued t,
        rw front at (v.queued t),
        Rising-below (ticket + 1) w.gate.next_ticket ticket rest (omega arith) rising.1,
      );
      rising = Rising-lower (ticket + 1) 0 w.gate.next_ticket rest (omega arith) rising.1;
    })

-- Which call a queue that is not empty serves.
front_starts :
    (size : ℕ) (g : Gate) (queue : List ℕ) (t : ℕ)
    → 1 ≤ times t queue
    → g.running < size
    → (ticket : ℕ) × (g' : Gate) × (1 ≤ times ticket queue)
      × (try_start size ticket (record g { queue = queue }) ≡ some g')
unfolding try_start
front_starts size g [] t waits room = absurd (omega (arith, waits))
front_starts size g (s ∷ rest) t waits room =
    (s, record g { running = g.running + 1; queue = rest }, ground arith, ground (arith, room))

module _ {size : ℕ} where
  Reach-IsOrdered : {w : Workers} → Reach size w → IsOrdered size w
  unfolding drop_lease
  Reach-IsOrdered start = record {
    leased = refl;
    bounded = omega arith;
    queued = λ t. refl;
    rising = omega arith;
  }
  Reach-IsOrdered (later r arrives) = take_ticket-IsOrdered size _ (Reach-IsOrdered r)
  Reach-IsOrdered (later r (starts ticket waits e)) =
      start-IsOrdered size _ ticket (Reach-IsOrdered r) e
  Reach-IsOrdered (later r (drops held)) =
      let v = Reach-IsOrdered r in
      record {
        leased = omega (arith, v.leased);
        bounded = omega (arith, v.bounded);
        queued = v.queued;
        rising = v.rising;
      }

  -- At most as many leases are held as the pool is large, and the gate counts them.
  pub Reach-leased : {w : Workers} → Reach size w → (w.gate.running ≡ w.leases) × (w.leases ≤ size)
  Reach-leased r = let v = Reach-IsOrdered r in (v.leased, v.bounded)

  -- A call that gets a lease finds one left, and it came before every other call that waits.
  pub Reach-first_come :
      {w : Workers} (ticket t : ℕ) {g : Gate}
      → Reach size w
      → try_start size ticket w.gate ≡ some g
      → 1 ≤ times t w.waits
      → (w.leases < size) × (ticket ≤ t)
  Reach-first_come {w = w} ticket t r e waits =
      let v = Reach-IsOrdered r in
      let (room, (rest, front, is)) =
        started size ticket w.gate.running w.gate.next_ticket w.gate.queue e in
      let rising = (rw front at v.rising) in
      (
        omega (arith, v.leased, room),
        ground (
          arith,
          waits,
          rw front at (v.queued t),
          Rising-below (ticket + 1) w.gate.next_ticket t rest,
          rising.1,
        ),
      )

  -- While a lease is left and a call waits, the first call of the queue is a waiting call, and its next
  -- turn of the loop gives it a lease.
  pub Reach-some_starts :
      {w : Workers} (t : ℕ)
      → Reach size w
      → 1 ≤ times t w.waits
      → w.leases < size
      → (ticket : ℕ) × (g : Gate) × (1 ≤ times ticket w.waits)
        × (try_start size ticket w.gate ≡ some g)
  Reach-some_starts {w = w} t r waits room =
      let v = Reach-IsOrdered r in
      let (ticket, g, first, e) =
        front_starts size w.gate w.gate.queue t (omega (arith, waits, v.queued t))
          (omega (arith, v.leased, room)) in
      (ticket, g, omega (arith, first, v.queued ticket), e)
