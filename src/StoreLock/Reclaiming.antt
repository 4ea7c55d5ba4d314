-- ===== src/StoreLock/Reclaiming.antt =====
-- When a daemon takes a store lock away: `settle_store_lock` and `reclaim_store_lock` of
-- crates/agentplug-runner/src/daemon/claim_dispatch.rs.
use agentplug.Base.{
  ℕ, ◌+◌, ◌==◌, ◌≤◌, ◌<◌, Bool, true, false, not, ◌&&◌, ◌||◌, Option, none, some, ◌≡◌, ◌≢◌, leb,
  ◌⊎◌, refl, subst, sym, inl, inr,
}
use agentplug.Base.{arith}
use agentplug.Base.Tests.{Bool-cases, if-cases}
use agentplug.StoreLock.{
  Marker, Disk, StoreLockState, clear, reclaimed, held, Owner, read_store_lock_owner, same_owner,
  owner_record_is_stale, stamp_age_ms, Interference, restore, wall_clock_skew_tolerance_ms,
  reclaim_store_lock, settle_owner, settle_store_lock, StoreOwnerHolds, claim_store,
  write_store_owner_marker, store_lock_stale_ms, drop_store_owner,
}

recent_stamp :
    (since now : ℕ) (m : Option Marker)
    → since ≤ now
    → now < since + store_lock_stale_ms
    → owner_record_is_stale now since m ≡ false
unfolding owner_record_is_stale stamp_age_ms
recent_stamp since now m after soon = ground arith

-- The answer to a dispatch that finds the marker of a live process: nothing changed, and the lock is
-- held, or there is none.
abbrev pub Spares : ℕ → Disk → Disk × StoreLockState → Type 0
Spares pid d o = (o.0 ≡ d) × ((o.1 ≡ held (some pid)) ⊎ (o.1 ≡ clear))

not_taken :
    (own : Bool) {alive stale : Bool}
    → alive ≡ true
    → stale ≡ false
    → ((own || alive) && not stale) ≡ false
    → ⊥
not_taken true a b h = cc
not_taken false a b h = cc

recent_claim-Spares :
    (pid since own_pid now : ℕ) (pid_is_alive : ℕ → Bool) (env : Interference) (locked : Bool)
    (claimed : Disk)
    → pid_is_alive pid ≡ true
    → since ≤ now
    → now < since + store_lock_stale_ms
    → let seen = record (write_store_owner_marker pid since claimed) { locked = locked } in
      Spares pid seen (settle_store_lock own_pid pid_is_alive now env seen)
unfolding settle_store_lock write_store_owner_marker read_store_lock_owner settle_owner
recent_claim-Spares pid since own_pid now pid_is_alive env locked claimed alive after soon =
    let seen : Disk = record (write_store_owner_marker pid since claimed) { locked = locked } in
    if-cases (Spares pid seen) locked
      (λ there.
        if-cases (Spares pid seen)
          ((pid == own_pid || pid_is_alive pid)
            && not (owner_record_is_stale now since seen.marker))
          (λ spared. (refl, inl refl))
          (λ taken. absurd (
            not_taken (pid == own_pid) alive (recent_stamp since now seen.marker after soon)
              taken)))
      (λ free. (refl, inr refl))

-- From a process's claim of the store until 45 seconds later, while the process is alive and its marker is
-- the one that the claim wrote: whether the lock is there by then or not, a dispatch that settles it changes
-- nothing and does not take it.
pub settle_store_lock-Spares :
    (pid since budget_ms own_pid now : ℕ) (pid_is_alive : ℕ → Bool) (env : Interference)
    (entry : Option StoreOwnerHolds) (d seen : Disk)
    → pid_is_alive pid ≡ true
    → since ≤ now
    → now < since + store_lock_stale_ms
    → seen.marker ≡ (claim_store pid since budget_ms entry d).1.marker
    → Spares pid seen (settle_store_lock own_pid pid_is_alive now env seen)
unfolding claim_store
settle_store_lock-Spares pid since budget_ms own_pid now pid_is_alive env entry d seen alive after
      soon kept =
    subst
      (λ m.
        let found : Disk = record { locked = seen.locked; marker = m } in
        Spares pid found (settle_store_lock own_pid pid_is_alive now env found))
      (sym kept)
      (recent_claim-Spares pid since own_pid now pid_is_alive env seen.locked d alive after soon)

same_owner-eq : (a b : Option Owner) → same_owner a b ≡ true → a ≡ b
same_owner-eq none none h = refl
same_owner-eq none (some b) h = cc
same_owner-eq (some a) none h = cc
same_owner-eq (some a) (some b) h = ground arith

-- What the disk is between the moves of a reclaim: the lock is aside, the marker is still there.
abbrev pub parked_by : Interference → Disk → Disk
parked_by env d = env.before_marker (record (env.before_lock d) { locked = false })

-- The lock was there and was moved aside, the marker that was then moved is of the owner that was judged,
-- and the lock and that marker are gone.
abbrev pub Taken : Option Owner → Interference → Disk → Disk → Type 0
Taken judged env d after =
    ((env.before_lock d).locked ≡ true)
    × (env.moves ≡ true)
    × (read_store_lock_owner (parked_by env d).marker ≡ judged)
    × (after ≡ record (parked_by env d) { marker = none })

reclaim_store_lock-Taken :
    (judged : Option Owner) (env : Interference) (d : Disk)
    → (reclaim_store_lock judged env d).1 ≡ reclaimed
    → Taken judged env d (reclaim_store_lock judged env d).0
unfolding reclaim_store_lock restore
reclaim_store_lock-Taken judged env d =
    let Gives : Disk × StoreLockState → Type 0 = λ o. o.1 ≡ reclaimed → Taken judged env d o.0 in
    if-cases Gives (not ((env.before_lock d).locked && env.moves)) (λ away e. cc)
      (λ moved.
        if-cases Gives (not (same_owner (read_store_lock_owner (parked_by env d).marker) judged))
          (λ other e. cc)
          (λ same.
            if-cases Gives env.removes
              (λ removes e.
                (ground arith, ground arith, same_owner-eq _ judged (ground arith), refl))
              (λ stuck e. cc)))

-- The stamp is 45 seconds old, or it is so far ahead of the clock that the marker's file is judged, and
-- that is 45 seconds old.
abbrev pub Stale : ℕ → ℕ → Option Marker → Type 0
Stale now ts file =
    (ts + store_lock_stale_ms ≤ now)
    ⊎ ((now + wall_clock_skew_tolerance_ms < ts)
        × ((m : Marker) × (file ≡ some m) × (m.modified + store_lock_stale_ms ≤ now)))

owner_record_is_stale-Stale :
    (now ts : ℕ) (file : Option Marker)
    → owner_record_is_stale now ts file ≡ true
    → Stale now ts file
unfolding owner_record_is_stale stamp_age_ms
owner_record_is_stale-Stale now ts none h = inl (ground arith)
owner_record_is_stale-Stale now ts (some m) h =
    elim (Bool-cases (leb ts (now + wall_clock_skew_tolerance_ms))) [
      | inl near ↦ inl (ground arith)
      | inr ahead ↦ inr (ground arith, (m, refl, ground arith))
    ]

-- The marker has no owner, or its owner is another process that is not alive, or its stamp is stale.
abbrev pub Abandoned : ℕ → (ℕ → Bool) → ℕ → Option Marker → Option Owner → Type 0
Abandoned own_pid pid_is_alive now file none = Unit {0}
Abandoned own_pid pid_is_alive now file (some owner) =
    ((owner.pid ≢ own_pid) × (pid_is_alive owner.pid ≡ false)) ⊎ Stale now owner.ts file

settle_owner-Taken :
    (own_pid now : ℕ) (pid_is_alive : ℕ → Bool) (env : Interference) (o : Option Owner) (d : Disk)
    → (settle_owner own_pid pid_is_alive now env o d).1 ≡ reclaimed
    → Abandoned own_pid pid_is_alive now d.marker o
      × Taken o env d (settle_owner own_pid pid_is_alive now env o d).0
unfolding settle_owner
settle_owner-Taken own_pid now pid_is_alive env none d =
    λ e. (tt, reclaim_store_lock-Taken none env d e)
settle_owner-Taken own_pid now pid_is_alive env (some owner) d =
    if-cases
      (λ (o : Disk × StoreLockState).
        o.1 ≡ reclaimed
        → Abandoned own_pid pid_is_alive now d.marker (some owner) × Taken (some owner) env d o.0)
      ((owner.pid == own_pid || pid_is_alive owner.pid)
        && not (owner_record_is_stale now owner.ts d.marker))
      (λ spared e. cc)
      (λ free e. (
        elim (Bool-cases (owner_record_is_stale now owner.ts d.marker)) [
          | inl stale ↦ inr (owner_record_is_stale-Stale now owner.ts d.marker stale)
          | inr fresh ↦ inl (ground arith, ground arith)
        ],
        reclaim_store_lock-Taken (some owner) env d e,
      ))

-- Whatever other processes do between the moves of a reclaim: if a dispatch answers that it took the lock
-- away, then the owner that it read from the marker was abandoned (there was none, it was another process
-- that was not alive, or its stamp was stale); the lock was still there, the marker that was moved aside
-- after it had the same owner with the same stamp, or again none, and the lock and that marker are gone.
pub settle_store_lock-Taken :
    (own_pid now : ℕ) (pid_is_alive : ℕ → Bool) (env : Interference) (d : Disk)
    → (settle_store_lock own_pid pid_is_alive now env d).1 ≡ reclaimed
    → (d.locked ≡ true)
      × Abandoned own_pid pid_is_alive now d.marker (read_store_lock_owner d.marker)
      × Taken
          (read_store_lock_owner d.marker)
          env
          d
          (settle_store_lock own_pid pid_is_alive now env d).0
unfolding settle_store_lock
settle_store_lock-Taken own_pid now pid_is_alive env d =
    if-cases
      (λ (o : Disk × StoreLockState).
        o.1 ≡ reclaimed
        → (d.locked ≡ true)
          × Abandoned own_pid pid_is_alive now d.marker (read_store_lock_owner d.marker)
          × Taken (read_store_lock_owner d.marker) env d o.0)
      d.locked
      (λ locked e.
        let (abandoned, taken) =
          settle_owner-Taken own_pid now pid_is_alive env (read_store_lock_owner d.marker) d e in
        (locked, abandoned, taken))
      (λ free e. cc)

-- No interference.
abbrev pub undisturbed : Interference
undisturbed = record {
  before_lock = λ d. d;
  before_marker = λ d. d;
  before_restore = λ d. d;
  moves = true;
  restores = true;
  removes = true;
}

-- Two processes claim the store, the second before the first has taken the lock. When the second ends its
-- call it removes the marker, which was written last by itself, and the next daemon takes away the lock
-- that the first holds, although that process is alive and has just claimed it.
pub drop_store_owner-exposes :
    (pid rival budget_ms since own_pid now : ℕ) (pid_is_alive : ℕ → Bool) (d : Disk)
    → let claimed = (claim_store pid since budget_ms none d).1 in
      let (holds, overwritten, spawns) = claim_store rival since budget_ms none claimed in
      let taken = record overwritten { locked = true } in
      let dropped = (drop_store_owner (some holds) taken).1 in
      (settle_store_lock own_pid pid_is_alive now undisturbed dropped).1 ≡ reclaimed
unfolding settle_store_lock claim_store drop_store_owner settle_owner reclaim_store_lock
    read_store_lock_owner
drop_store_owner-exposes pid rival budget_ms since own_pid now pid_is_alive d = refl
