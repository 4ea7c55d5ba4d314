-- ===== src/Lanes/Sweep/Freeing.antt =====
-- Which lanes the sweep of dead lane owners frees: `release_dead_lane_owners` of
-- crates/agentplug-host/src/registry.rs.
use agentplug.Base.{
  ℕ, ◌≡◌, refl, ◌∙◌, ◌==◌, List, [], ◌∷◌, Option, none, some, any, if◌then◌else◌, Bool, arith,
  Bool-cases, inl, inr,
}
use agentplug.Base.Maps.{lookup, lookup-remove}
use agentplug.Lanes.Keys.{LaneKey, lane_key, same_key}
use agentplug.Lanes.Owners.{LaneOwner, World}
use agentplug.Lanes.Sweep.{
  AbandonedLaneOwner, candidates, taken, take_owner, prepend, Liveness, is_dead, visit_dead,
  sweep_dead, release_dead_lane_owners,
}

module _ (j : LaneKey) where
  abbrev pub reports : List AbandonedLaneOwner → Bool
  reports released = any (λ r. same_key r.key j) released

  -- The lane is free if it is reported, and else has the owner that it had.
  abbrev pub Frees : World → World × List AbandonedLaneOwner → Type 0
  Frees w o = lookup j o.0.owners ≡ (if reports o.1 then none else lookup j w.owners)

  abbrev pub LeavesAlone : (LaneKey → World → World) → Type 0
  LeavesAlone f = (k : LaneKey) (w : World) → lookup j (f k w).owners ≡ lookup j w.owners

  -- One report at most.
  abbrev IsShort : List AbandonedLaneOwner → Type 0
  IsShort [] = Unit {0}
  IsShort (r ∷ rs) = rs ≡ []

  taken-Frees :
      (now : ℕ) (w : World) (key : LaneKey) (token : ℕ) (entry : Option LaneOwner)
      → Frees w (taken now w key token entry) × IsShort (taken now w key token entry).1
  unfolding taken
  taken-Frees now w key token none = (refl, tt)
  taken-Frees now w key token (some owner) = elim (Bool-cases (owner.token == token)) [
    | inl same ↦ rw same (lookup-remove key j w.owners ∙ ground arith, refl)
    | inr other ↦ rw other (refl, tt)
  ]

  visit_dead-Frees :
      (now : ℕ) (live : Liveness) (seen last : World) (key : LaneKey) (token : ℕ)
      → lookup j last.owners ≡ lookup j seen.owners
      → Frees seen (visit_dead now live seen last key token)
        × IsShort (visit_dead now live seen last key token).1
  unfolding visit_dead take_owner
  visit_dead-Frees now live seen last key token still =
      elim (Bool-cases (is_dead live key token (lookup key seen.owners))) [
        | inl dead ↦
            rw dead (rw (← still) (taken-Frees now last key token (lookup key last.owners)))
        | inr alive ↦ rw alive (refl, tt)
      ]

  prepend-Frees :
      (w u : World) (rs : List AbandonedLaneOwner) (rest : World × List AbandonedLaneOwner)
      → IsShort rs
      → Frees w (u, rs)
      → Frees u rest
      → Frees w (prepend rs rest)
  unfolding prepend
  prepend-Frees w u [] (after, released) short first later = later ∙ (rw first refl)
  prepend-Frees w u (r ∷ rs) (after, released) short first later =
      let alone : (if reports (r ∷ rs) then none else lookup j w.owners)
          ≡ (if same_key r.key j then none else lookup j w.owners) =
        rw short (ground arith) in
      later ∙ (rw (first, alone) (ground arith))

  module _ (now : ℕ) (live : Liveness) (others later : LaneKey → World → World)
      (quiet : LeavesAlone others) (still : LeavesAlone later) where
    sweep_dead-Frees :
        (cs : List (LaneKey × ℕ)) (w : World) → Frees w (sweep_dead now live others later cs w)
    unfolding sweep_dead
    sweep_dead-Frees [] w = refl
    sweep_dead-Frees ((key, token) ∷ cs) w =
        let seen = others key w in
        let visit = visit_dead now live seen (later key seen) key token in
        let first = visit_dead-Frees now live seen (later key seen) key token (still key seen) in
        rw (← quiet key w)
          (prepend-Frees seen visit.0 visit.1 _ first.1 first.0 (sweep_dead-Frees cs visit.0))

    pub release_dead_lane_owners-Frees :
        (min_held_ms : ℕ) (w : World)
        → Frees w (release_dead_lane_owners now min_held_ms live others later w)
    unfolding release_dead_lane_owners
    release_dead_lane_owners-Frees min_held_ms w =
        sweep_dead-Frees (candidates now min_held_ms w.owners) w
