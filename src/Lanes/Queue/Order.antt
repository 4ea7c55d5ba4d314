-- ===== src/Lanes/Queue/Order.antt =====
-- Who may go next on a lane.
use agentplug.Base.{
  ℕ, ◌-◌, ◌≤◌, ◌<◌, ◌≡◌, refl, ◌≢◌, ◌↔◌, ◌⊎◌, Bool, true, false, List, [], ◌∷◌, ◌++◌, some, all,
  All, arith,
}
use agentplug.Verbs.Cost.{contains}
use agentplug.Verbs.Tables.{git_network_lane_verbs}
use agentplug.Verbs.Lanes.{lane_yield_class}
use agentplug.Lanes.Queue.{LaneWaiter, lets_pass, ahead_of, lane_admissible}

abbrev pub is_network : LaneWaiter → Bool
is_network e = contains git_network_lane_verbs e.verb

ahead_of-append :
    (front back : List LaneWaiter) (mine : LaneWaiter)
    → All (λ e. e.token ≢ mine.token) front
    → ahead_of mine.token (front ++ (mine ∷ back)) ≡ some (front, mine)
unfolding ahead_of
ahead_of-append [] back mine h = ground arith
ahead_of-append (e ∷ front) back mine h = ground (arith, ahead_of-append front back mine h.1)

-- When `entry` ahead does not hold `mine` up.
abbrev pub Passes : ℕ → ℕ → LaneWaiter → LaneWaiter → Type 0
Passes yield_ms now mine entry =
    (30_000 ≤ now - entry.last_seen_ms)
    ⊎ ((is_network entry ≡ true) × (is_network mine ≡ false) × (now - entry.claimed_ms < yield_ms))

lets_pass_iff :
    (yield_ms now : ℕ) (mine entry : LaneWaiter)
    → (lets_pass yield_ms now (lane_yield_class mine.verb) entry ≡ true)
      ↔ Passes yield_ms now mine entry
unfolding lets_pass lane_yield_class
lets_pass_iff yield_ms now mine entry = (λ h. ground arith, λ h. ground arith)

all_iff :
    {P : LaneWaiter → Type 0} (p : LaneWaiter → Bool) (es : List LaneWaiter)
    → ((e : LaneWaiter) → (p e ≡ true) ↔ P e)
    → (all p es ≡ true) ↔ All P es
all_iff p [] h = (λ _. tt, λ _. refl)
all_iff p (e ∷ es) h = (
  λ a. ((h e).0 (ground arith), (all_iff p es h).0 (ground arith)),
  λ a. ground (arith, (h e).1 a.0, (all_iff p es h).1 a.1),
)

-- A waiter may take its free lane exactly when each entry ahead of it is stale (not seen for 30 seconds,
-- whether its thread still waits or not), or is a network command that claimed its place less than
-- `yield_ms` ago while the waiter is none.
pub lane_admissible_iff :
    (yield_ms now : ℕ) (front back : List LaneWaiter) (mine : LaneWaiter)
    → All (λ e. e.token ≢ mine.token) front
    → (lane_admissible yield_ms now (front ++ (mine ∷ back)) mine.token ≡ true)
      ↔ All (Passes yield_ms now mine) front
unfolding lane_admissible
lane_admissible_iff yield_ms now front back mine own = rw (ahead_of-append front back mine own) (
    all_iff (lets_pass yield_ms now (lane_yield_class mine.verb)) front
      (λ e. lets_pass_iff yield_ms now mine e))
