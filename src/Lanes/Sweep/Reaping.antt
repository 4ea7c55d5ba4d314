-- ===== src/Lanes/Sweep/Reaping.antt =====
-- Whom the sweep of dead lane owners takes a lane from.
use agentplug.Base.{
  ℕ, ◌-◌, ◌≤◌, ◌≡◌, refl, ap, ◌∙◌, leb, leb→le, ◌==◌, ==_iff, true, false, List, [], ◌∷◌, Option,
  none, some, str_eq, All, arith, subst, Bool-cases, inl, inr,
}
use agentplug.Base.Maps.{lookup, remove}
use agentplug.Lanes.Keys.{LaneKey, lane_key, same_key}
use agentplug.Lanes.Owners.{LaneOwner, World}
use agentplug.Lanes.Sweep.{
  AbandonedLaneOwner, abandoned, candidates, taken, take_owner, prepend, Liveness, is_dead,
  visit_dead, sweep_dead, release_dead_lane_owners,
}
use agentplug.Lanes.Sweep.Freeing.{LeavesAlone, Frees, release_dead_lane_owners-Frees}

-- The owners of a map that are the ones issued with their tokens.
abbrev pub Known : (ℕ → LaneOwner) → List (LaneKey × LaneOwner) → Type 0
Known issued = All (λ (e : LaneKey × LaneOwner). e.1 ≡ issued e.1.token)

lookup-Known :
    (issued : ℕ → LaneOwner) (key : LaneKey) (owners : List (LaneKey × LaneOwner))
    (owner : LaneOwner)
    → Known issued owners
    → lookup key owners ≡ some owner
    → owner ≡ issued owner.token
unfolding lookup
lookup-Known issued key [] owner v e = ground arith
lookup-Known issued key ((k, o) ∷ owners) owner v e = elim (Bool-cases (same_key k key)) [
  | inl here ↦ ground arith
  | inr other ↦ lookup-Known issued key owners owner v.1 (ground arith)
]

remove-Known :
    (issued : ℕ → LaneOwner) (key : LaneKey) (owners : List (LaneKey × LaneOwner))
    → Known issued owners
    → Known issued (remove key owners)
unfolding remove
remove-Known issued key [] v = tt
remove-Known issued key ((k, o) ∷ owners) v = elim (Bool-cases (same_key k key)) [
  | inl here ↦ rw here (remove-Known issued key owners v.1)
  | inr other ↦ rw other (v.0, remove-Known issued key owners v.1)
]

module _ (issued : ℕ → LaneOwner) (now min_held_ms : ℕ) (live : Liveness) where
  -- The released owner, by the token that it was issued with: it held the lane for long enough, it has
  -- a verb and a task, and it was not live.
  pub record Reaped (r : AbandonedLaneOwner) : Type 0 where
    pub token : ℕ
    pub from : r ≡ abandoned now r.key (issued token)
    pub long : min_held_ms ≤ now - (issued token).acquired_ms
    pub verb_named : str_eq (issued token).verb "" ≡ false
    pub task_named : str_eq (issued token).task "" ≡ false
    pub not_live : live r.key (issued token).verb (issued token).task ≡ false

  abbrev Old : LaneKey × ℕ → Type 0
  Old (key, token) = min_held_ms ≤ now - (issued token).acquired_ms

  candidates-Old :
      (owners : List (LaneKey × LaneOwner))
      → Known issued owners
      → All Old (candidates now min_held_ms owners)
  unfolding candidates
  candidates-Old [] v = tt
  candidates-Old ((key, owner) ∷ owners) v =
      elim (Bool-cases (leb min_held_ms (now - owner.acquired_ms))) [
        | inl old ↦ rw old (
          subst (λ o. min_held_ms ≤ now - o.acquired_ms) v.0 (leb→le _ _ old),
          candidates-Old owners v.1,
        )
        | inr young ↦ rw young (candidates-Old owners v.1)
      ]

  abbrev IsDead : LaneKey → LaneOwner → Type 0
  IsDead key o =
      (str_eq o.verb "" ≡ false) × (str_eq o.task "" ≡ false) × (live key o.verb o.task ≡ false)

  is_dead_lem :
      (key : LaneKey) (token : ℕ) (o : LaneOwner)
      → is_dead live key token (some o) ≡ true
      → (o.token ≡ token) × IsDead key o
  unfolding is_dead
  is_dead_lem key token o h = (ground arith, (ground arith, ground arith, ground arith))

  released-Reaped :
      (key : LaneKey) (token : ℕ) (owner : LaneOwner)
      → Old (key, token)
      → owner ≡ issued token
      → IsDead key (issued token)
      → Reaped (abandoned now key owner)
  released-Reaped key token owner old e dead = record {
    token = token;
    from = ap (abandoned now key) e;
    long = old;
    verb_named = dead.0;
    task_named = dead.1;
    not_live = dead.2;
  }

  taken-Reaped :
      (w : World) (key : LaneKey) (token : ℕ) (first : Option LaneOwner)
      → Known issued w.owners
      → Old (key, token)
      → is_dead live key token first ≡ true
      → ((o : LaneOwner) → first ≡ some o → o ≡ issued o.token)
      → (entry : Option LaneOwner) → ((o : LaneOwner) → entry ≡ some o → o ≡ issued o.token)
      → All Reaped (taken now w key token entry).1
        × Known issued (taken now w key token entry).0.owners
  unfolding taken is_dead
  taken-Reaped w key token first v old dead f none h = (tt, v)
  taken-Reaped w key token none v old dead f (some owner) h = ground arith
  taken-Reaped w key token (some o) v old dead f (some owner) h =
      elim (Bool-cases (owner.token == token)) [
        | inl same ↦
            let (first_token, dead_first) = is_dead_lem key token o dead in
            let first_is : o ≡ issued token = f o refl ∙ ap issued first_token in
            let owner_is : owner ≡ issued token =
              h owner refl ∙ ap issued ((==_iff owner.token token).0 same) in
            rw same (
              (
                released-Reaped key token owner old owner_is
                    (subst (IsDead key) first_is dead_first),
                tt,
              ),
              remove-Known issued key w.owners v,
            )
        | inr other ↦ rw other (tt, v)
      ]

  take_owner-Reaped :
      (w seen : World) (key : LaneKey) (token : ℕ)
      → Known issued seen.owners
      → Known issued w.owners
      → Old (key, token)
      → is_dead live key token (lookup key seen.owners) ≡ true
      → All Reaped (take_owner now w key token).1
        × Known issued (take_owner now w key token).0.owners
  unfolding take_owner
  take_owner-Reaped w seen key token vs v old dead =
      taken-Reaped w key token (lookup key seen.owners) v old dead
        (λ o e. lookup-Known issued key seen.owners o vs e) (lookup key w.owners)
        (λ o e. lookup-Known issued key w.owners o v e)

  prepend-Reaped :
      (rs : List AbandonedLaneOwner) (later : World × List AbandonedLaneOwner)
      → All Reaped rs
      → All Reaped later.1
      → All Reaped (prepend rs later).1
  unfolding prepend
  prepend-Reaped [] (w, released) h l = l
  prepend-Reaped (r ∷ rs) (w, released) h l = (h.0, l)

  visit_dead-Reaped :
      (w seen : World) (key : LaneKey) (token : ℕ)
      → Known issued seen.owners
      → Known issued w.owners
      → Old (key, token)
      → All Reaped (visit_dead now live seen w key token).1
        × Known issued (visit_dead now live seen w key token).0.owners
  unfolding visit_dead
  visit_dead-Reaped w seen key token vs v old =
      elim (Bool-cases (is_dead live key token (lookup key seen.owners))) [
        | inl dead ↦ rw dead (take_owner-Reaped w seen key token vs v old dead)
        | inr alive ↦ rw alive (tt, vs)
      ]

  module _ (others later : LaneKey → World → World)
      (others_know : (k : LaneKey) (w : World)
        → Known issued w.owners
        → Known issued (others k w).owners)
      (later_know : (k : LaneKey) (w : World)
        → Known issued w.owners
        → Known issued (later k w).owners) where
    sweep_dead-Reaped :
        (cs : List (LaneKey × ℕ)) (w : World)
        → Known issued w.owners
        → All Old cs
        → All Reaped (sweep_dead now live others later cs w).1
    unfolding sweep_dead
    sweep_dead-Reaped [] w v old = tt
    sweep_dead-Reaped ((key, token) ∷ cs) w v old =
        let seen_known = others_know key w v in
        let visit =
          visit_dead-Reaped (later key (others key w)) (others key w) key token seen_known
            (later_know key (others key w) seen_known) old.0 in
        prepend-Reaped _ _ visit.0 (sweep_dead-Reaped cs _ visit.1 old.1)

    -- Whatever the other threads do to other lanes between the looks of a sweep, as long as an owner with a
    -- token is the one issued with it: each owner that the sweep reports held its lane for at least
    -- `min_held_ms`, has a verb and a task, and was not live; the report names the owner and how long it
    -- held. A lane that the others leave alone has no owner after the sweep if the sweep reports it, and
    -- else the owner that it had.
    pub release_dead_lane_owners-Reaped :
        (j : LaneKey) (w : World)
        → Known issued w.owners
        → LeavesAlone j others
        → LeavesAlone j later
        → All Reaped (release_dead_lane_owners now min_held_ms live others later w).1
          × Frees j w (release_dead_lane_owners now min_held_ms live others later w)
    unfolding release_dead_lane_owners
    release_dead_lane_owners-Reaped j w v quiet still = (
      sweep_dead-Reaped (candidates now min_held_ms w.owners) w v (candidates-Old w.owners v),
      release_dead_lane_owners-Frees j now live others later quiet still min_held_ms w,
    )
