-- ===== src/Lanes/Owners/Taking.antt =====
-- How a lane is taken and given back.
use agentplug.Base.{
  ℕ, ◌-◌, ◌≤◌, ◌<◌, ◌≡◌, refl, ◌≢◌, ◌∙◌, leb, leb→le, Bool, true, false, ◌&&◌, List, [], ◌∷◌,
  Option, none, some, if◌then◌else◌, arith, Bool-cases, Option-cases, inl, inr, ◌⊎◌,
}
use agentplug.Base.Maps.{lookup, insert, lookup-remove, Text}
use agentplug.Verbs.Lanes.{Lane}
use agentplug.Lanes.Keys.{LaneKey, lane_key, same_key}
use agentplug.Lanes.Queue.{lane_admissible}
use agentplug.Lanes.Owners.{
  LaneOwner, World, GmFairnessGuard, Call, Round, queue_of, is_none, own, may_own, acquire_loop,
  owner_token, still_owns, drop_guard,
}

-- Some round is looked at after the call's time is up.
abbrev pub Late : Call → List Round → Type 0
Late call [] = ⊥
Late call (round ∷ rounds) = (call.max_wait ≤ round.now - call.start) ⊎ Late call rounds

is_none_lem : (o : Option LaneOwner) → is_none o ≡ true → o ≡ none
is_none_lem none h = refl
is_none_lem (some a) h = ground arith

later_Late :
    (call : Call) (round : Round) (rounds : List Round)
    → leb call.max_wait (round.now - call.start) ≡ false
    → Late call (round ∷ rounds)
    → Late call rounds
later_Late call round rounds early (inl up) = absurd (ground arith)
later_Late call round rounds early (inr later) = later

module _ (yield_ms : ℕ) (call : Call) (key : LaneKey) (token : ℕ) where
  -- The lane was free and the waiter admissible in the world `seen`, and the result is that world with the
  -- call as the lane's owner.
  pub record Took (w : World) : Type 0 where
    pub seen : World
    pub now : ℕ
    pub was_free : lookup key seen.owners ≡ none
    pub was_next : lane_admissible yield_ms now (queue_of (lookup key seen.waiters)) token ≡ true
    pub now_owner :
        w.owners
        ≡ insert key
            (record { verb = call.verb; token = token; task = call.task; acquired_ms = now })
            seen.owners
    pub same_queue : w.waiters ≡ seen.waiters

  -- The lane has an owner, or a waiter ahead of the call blocks it.
  abbrev pub Blocked : ℕ → World → Type 0
  Blocked now w =
      (lookup key w.owners ≢ none)
      ⊎ (lane_admissible yield_ms now (queue_of (lookup key w.waiters)) token ≡ false)

  may_own-true :
      (now : ℕ) (seen : World)
      → may_own yield_ms now seen key token ≡ true
      → (t : Took (
          own seen key
            (record { verb = call.verb; token = token; task = call.task; acquired_ms = now })))
        × (t.now ≡ now)
        × (t.seen ≡ seen)
  unfolding may_own own
  may_own-true now seen h = (
    record {
      seen = seen;
      now = now;
      was_free = is_none_lem (lookup key seen.owners) (ground arith);
      was_next = ground arith;
      now_owner = refl;
      same_queue = refl;
    },
    refl,
    refl,
  )

  may_own-false :
      (now : ℕ) (seen : World) → may_own yield_ms now seen key token ≡ false → Blocked now seen
  unfolding may_own
  may_own-false now seen h = elim (Option-cases (lookup key seen.owners)) [
    | inl free ↦ inr (ground arith)
    | inr (owner, e) ↦ inl (λ f. cc)
  ]

  -- The rounds that the loop passes until it looks at the world `seen` in the round `now`: in each of those
  -- before, the call's time was not up and the lane had an owner or its queue did not admit the call.
  pub data Passes : List Round → World → ℕ → World → Type 0 where
    looks :
        (round : Round) (rounds : List Round) (w : World) {now : ℕ} {seen : World}
        → now ≡ round.now
        → seen ≡ round.before w
        → Passes (round ∷ rounds) w now seen
    sleeps :
        (round : Round) (rounds : List Round) (w : World) {now : ℕ} {seen : World}
        → round.now - call.start < call.max_wait
        → Blocked round.now (round.before w)
        → Passes rounds (round.before w) now seen
        → Passes (round ∷ rounds) w now seen

  -- In the round that it ends with, the loop takes the lane; or it fails and leaves the world as it saw it,
  -- in a round in which the call's time is up.
  abbrev pub Ends : List Round → World → World × Option Bool → Type 0
  Ends rounds first (w, none) = ⊥
  Ends rounds first (w, some true) = (t : Took w) × Passes rounds first t.now t.seen
  Ends rounds first (w, some false) =
      (now : ℕ) × Passes rounds first now w × (call.max_wait ≤ now - call.start) × Blocked now w

  sleeps-Ends :
      (round : Round) (rounds : List Round) (w : World) (o : World × Option Bool)
      → round.now - call.start < call.max_wait
      → Blocked round.now (round.before w)
      → Ends rounds (round.before w) o
      → Ends (round ∷ rounds) w o
  sleeps-Ends round rounds w (u, none) early blocked e = e
  sleeps-Ends round rounds w (u, some true) early blocked (t, passes) =
      (t, sleeps round rounds w early blocked passes)
  sleeps-Ends round rounds w (u, some false) early blocked (now, passes, up, b) =
      (now, sleeps round rounds w early blocked passes, up, b)

  -- As long as some round comes after the call's time is up, the loop ends, in the first round in which
  -- either the lane is free and its queue admits the call, or the call's time is up. In the one case the
  -- call owns the lane and nothing else of the owners and queues was written; in the other it fails.
  pub acquire_loop-Ends :
      (rounds : List Round) (w : World)
      → Late call rounds
      → Ends rounds w (acquire_loop yield_ms call key token rounds w)
  unfolding acquire_loop
  acquire_loop-Ends [] w late = late
  acquire_loop-Ends (round ∷ rounds) w late =
      elim (Bool-cases (may_own yield_ms round.now (round.before w) key token)) [
        | inl may ↦
            let (took, at_now, at_seen) = may_own-true round.now (round.before w) may in
            rw may (took, looks round rounds w at_now at_seen)
        | inr blocked ↦ rw blocked (elim (Bool-cases (leb call.max_wait (round.now - call.start))) [
          | inl up ↦ rw up (
            round.now,
            looks round rounds w refl refl,
            leb→le _ _ up,
            may_own-false round.now (round.before w) blocked,
          )
          | inr early ↦ rw early (
              sleeps-Ends round rounds w _ (ground arith)
                (may_own-false round.now (round.before w) blocked)
                (acquire_loop-Ends rounds (round.before w)
                  (later_Late call round rounds early late)))
        ])
      ]

-- The drop of a guard of a lane frees that lane exactly if the guard still owns it, and leaves the owner of
-- every other lane as it was.
pub drop_guard_owner :
    (w : World) (root : Text) (lane : Lane) (token : ℕ) (key : LaneKey)
    → let g : GmFairnessGuard = record { root = root; lane = some lane; token = token } in
      lookup key (drop_guard w g).owners ≡ (
        if same_key (record { root = root; lane = lane }) key && still_owns w g
        then none
        else lookup key w.owners)
unfolding drop_guard still_owns
drop_guard_owner w root lane token key =
    let mine : LaneKey = record { root = root; lane = lane } in
    elim (Bool-cases (owner_token (lookup mine w.owners) token)) [
      | inl owns ↦ rw owns (lookup-remove mine key w.owners ∙ ground arith)
      | inr displaced ↦ rw displaced (ground arith)
    ]
