-- ===== src/ToolQueue/Exclusion.antt =====
-- While no call of a tool times out, its calls run one at a time and in the order of their tickets.
use agentplug.Base.{
  ℕ, ◌+◌, ◌-◌, ◌≤◌, ◌≡◌, refl, subst, inl, inr, ◌==◌, leb, ltb, ◌&&◌, List, [], ◌∷◌, Option, none,
  some, one_if, times, without, without-times, arith, Bool-cases,
}
use agentplug.ToolQueue.{ToolQueue, enter, serve, release}

-- One key of `TOOL_INFLIGHT` as the threads see it: its entry, the tickets that threads wait with, and
-- how many guards are held.
pub record Line : Type 0 where
  pub entry : Option ToolQueue
  pub waits : List ℕ
  pub guards : ℕ

pub after_release : Option ToolQueue → Option ToolQueue
after_release none = none
after_release (some q) = release q

-- The critical sections of the threads, other than a wait that fails.
pub data Step (l : Line) : Line → Type 0 where
  arrives :
      Step l (record l { entry = some (enter l.entry).1; waits = (enter l.entry).0 ∷ l.waits })
  served :
      (ticket : ℕ) {q q' : ToolQueue}
      → 1 ≤ times ticket l.waits
      → l.entry ≡ some q
      → serve q ticket ≡ some q'
      → Step l (record { entry = some q'; waits = without ticket l.waits; guards = l.guards + 1 })
  drops : 1 ≤ l.guards → Step l (record l { entry = after_release l.entry; guards = l.guards - 1 })

pub data Reach : Line → Type 0 where
  start : Reach (record { entry = none; waits = []; guards = 0 })
  later : {l m : Line} → Reach l → Step l m → Reach m

abbrev pub Balanced : Option ToolQueue → List ℕ → ℕ → Type 0
Balanced none waits guards = ((t : ℕ) → times t waits ≡ 0) × (guards ≡ 0)
Balanced (some q) waits guards =
    ((t : ℕ) → times t waits ≡ one_if (leb q.now_serving t && ltb t q.next_ticket))
    × (guards ≡ one_if q.active)
    × (q.now_serving ≤ q.next_ticket)

enter-Balanced :
    (entry : Option ToolQueue) (waits : List ℕ) (guards : ℕ)
    → Balanced entry waits guards
    → Balanced (some (enter entry).1) ((enter entry).0 ∷ waits) guards
unfolding enter
enter-Balanced none waits guards v = (λ t. ground (arith, v.0 t), ground arith, omega arith)
enter-Balanced (some q) waits guards v = (λ t. ground (arith, v.0 t), ground arith, omega arith)

-- A call is served only when no guard is held, and before every call that still waits.
serve-Balanced :
    (q q' : ToolQueue) (ticket : ℕ) (waits : List ℕ) (guards : ℕ)
    → 1 ≤ times ticket waits
    → Balanced (some q) waits guards
    → serve q ticket ≡ some q'
    → Balanced (some q') (without ticket waits) (guards + 1)
      × (guards ≡ 0)
      × ((t : ℕ) → 1 ≤ times t waits → ticket ≤ t)
unfolding serve
serve-Balanced q q' ticket waits guards mine v e = (
  (
    λ t. ground (arith, v.0 t, v.0 ticket, without-times ticket t waits),
    ground arith,
    ground (arith, v.0 ticket),
  ),
  ground arith,
  λ t h. ground (arith, v.0 t),
)

release-Balanced :
    (entry : Option ToolQueue) (waits : List ℕ) (guards : ℕ)
    → 1 ≤ guards
    → Balanced entry waits guards
    → Balanced (after_release entry) waits (guards - 1)
unfolding after_release release
release-Balanced none waits guards held v = absurd (omega arith)
release-Balanced (some q) waits guards held v = elim (Bool-cases (q.next_ticket == q.now_serving)) [
  | inl drained ↦ rw drained (λ t. ground (arith, v.0 t), ground arith)
  | inr more ↦ rw more (v.0, ground arith, v.2)
]

served-Balanced :
    (l : Line) (ticket : ℕ) (q q' : ToolQueue)
    → 1 ≤ times ticket l.waits
    → l.entry ≡ some q
    → serve q ticket ≡ some q'
    → Balanced l.entry l.waits l.guards
    → Balanced (some q') (without ticket l.waits) (l.guards + 1)
      × (l.guards ≡ 0)
      × ((t : ℕ) → 1 ≤ times t l.waits → ticket ≤ t)
served-Balanced l ticket q q' mine here e v =
    serve-Balanced q q' ticket l.waits l.guards mine
      (subst (λ entry. Balanced entry l.waits l.guards) here v) e

Step-Balanced :
    {l m : Line} → Step l m → Balanced l.entry l.waits l.guards → Balanced m.entry m.waits m.guards
Step-Balanced {l} arrives v = enter-Balanced l.entry l.waits l.guards v
Step-Balanced {l} (served ticket {q} {q'} mine here e) v =
    (served-Balanced l ticket q q' mine here e v).0
Step-Balanced {l} (drops held) v = release-Balanced l.entry l.waits l.guards held v

Reach-Balanced : {l : Line} → Reach l → Balanced l.entry l.waits l.guards
Reach-Balanced start = (λ t. refl, refl)
Reach-Balanced (later r s) = Step-Balanced s (Reach-Balanced r)

Balanced-one :
    (entry : Option ToolQueue) (waits : List ℕ) (guards : ℕ)
    → Balanced entry waits guards
    → guards ≤ 1
Balanced-one none waits guards v = omega (arith, v.1)
Balanced-one (some q) waits guards v = ground (arith, v.1)

-- While no wait times out, at most one guard of a tool is held at any time.
pub Reach-exclusive : {l : Line} → Reach l → l.guards ≤ 1
Reach-exclusive {l} r = Balanced-one l.entry l.waits l.guards (Reach-Balanced r)

-- While no wait times out, a ticket is served only when no guard is held, and before every other one that
-- waits.
pub Reach-in_order :
    {l : Line} {q q' : ToolQueue} {ticket t : ℕ}
    → Reach l
    → 1 ≤ times ticket l.waits
    → l.entry ≡ some q
    → serve q ticket ≡ some q'
    → 1 ≤ times t l.waits
    → (l.guards ≡ 0) × (ticket ≤ t)
Reach-in_order {l} {q} {q'} {ticket} {t} r mine here e waited =
    let v = served-Balanced l ticket q q' mine here e (Reach-Balanced r) in (v.1, v.2 t waited)
