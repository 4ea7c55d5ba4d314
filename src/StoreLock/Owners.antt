-- ===== src/StoreLock/Owners.antt =====
-- The claims of one daemon on a store and the thread that keeps their marker: `StoreOwnerRecord` of
-- crates/agentplug-runner/src/daemon/claim_dispatch.rs.
use agentplug.Base.{
  ℕ, ◌+◌, ◌-◌, ◌<◌, Bool, true, false, ◌&&◌, ◌==◌, inl, inr, Option, none, some, ◌≡◌, refl,
}
use agentplug.Base.{arith}
use agentplug.Base.Tests.{one_if, Option-cases}
use agentplug.StoreLock.{
  Disk, StoreOwnerHolds, read_store_lock_owner, claim_store, store_heartbeat_turn, drop_store_owner,
  write_store_owner_marker, pid_of,
}

-- The entry of the store's path in the daemon's map, the disk, the records of `StoreOwnerRecord` that live
-- and the heartbeat's threads that run.
pub record Daemon : Type 0 where
  pub entry : Option StoreOwnerHolds
  pub disk : Disk
  pub records : ℕ
  pub threads : ℕ

module _ (pid : ℕ) where
  unfoldable pub after_claim : ℕ → ℕ → Daemon → Daemon
  unfolding claim_store
  after_claim now budget_ms s =
      let (holds, disk, spawns) = claim_store pid now budget_ms s.entry s.disk in
      record {
        entry = some holds;
        disk = disk;
        records = s.records + 1;
        threads = s.threads + one_if spawns;
      }

  unfoldable pub after_end : Daemon → Daemon
  unfolding drop_store_owner
  after_end s =
      let (entry, disk) = drop_store_owner s.entry s.disk in
      record { entry = entry; disk = disk; records = s.records - 1; threads = s.threads }

  unfoldable pub after_turn : ℕ → Daemon → Daemon
  unfolding store_heartbeat_turn
  after_turn now s =
      let (entry, disk, goes_on) = store_heartbeat_turn pid now s.entry s.disk in
      record {
        entry = entry;
        disk = disk;
        records = s.records;
        threads = s.threads - 1 + one_if goes_on;
      }

  -- A claim, the end of a record that lives, a turn of a thread that runs, and whatever else happens to the
  -- lock and the marker: the claims, ends, heartbeats and reclaims of other processes, and a reclaim of
  -- this one. The first flag tells, before the step, whether others changed the disk after the daemon last
  -- wrote the marker; the second one, after the step. A turn with a record that lives writes the marker.
  pub data Step : Bool → Daemon → Bool → Daemon → Type 0 where
    claims :
        (touched : Bool) (s : Daemon) (now budget_ms : ℕ)
        → Step touched s false (after_claim now budget_ms s)
    ends : (touched : Bool) (s : Daemon) → 0 < s.records → Step touched s touched (after_end s)
    beats :
        (touched touched' : Bool) (s : Daemon) (now : ℕ)
        → 0 < s.threads
        → touched' ≡ (touched && s.records == 0)
        → Step touched s touched' (after_turn now s)
    others :
        (touched : Bool) (s : Daemon) (disk : Disk) → Step touched s true (record s { disk = disk })

  pub data Reach : Bool → Daemon → Type 0 where
    start :
        (locked : Bool)
        → Reach false (record {
          entry = none;
          disk = record { locked = locked; marker = none };
          records = 0;
          threads = 0;
        })
    next :
        {touched touched' : Bool} {s t : Daemon}
        → Reach touched s
        → Step touched s touched' t
        → Reach touched' t

  pub running : Option StoreOwnerHolds → Bool
  running none = false
  running (some holds) = holds.heartbeat_running

  pub holds_counted : Option StoreOwnerHolds → ℕ
  holds_counted none = 0
  holds_counted (some holds) = holds.count

  -- The entry counts the records, one thread runs if the entry says so and so while a record lives; unless
  -- others have changed the disk since, the marker names the daemon while a record lives, and there is
  -- none when none lives. The next turn of the thread names the daemon in any case while a record lives.
  pub record Kept (touched : Bool) (s : Daemon) : Type 0 where
    pub counts : holds_counted s.entry ≡ s.records
    pub one_thread : s.threads ≡ one_if (running s.entry)
    pub beating : 0 < s.records → s.threads ≡ 1
    pub marked :
        touched ≡ false → 0 < s.records → pid_of (read_store_lock_owner s.disk.marker) ≡ some pid
    pub unmarked : touched ≡ false → s.records ≡ 0 → read_store_lock_owner s.disk.marker ≡ none
    pub renewed :
        (now : ℕ)
        → 0 < s.records
        → pid_of (read_store_lock_owner (after_turn now s).disk.marker) ≡ some pid

  turn-renews :
      (s : Daemon) (now : ℕ)
      → holds_counted s.entry ≡ s.records
      → 0 < s.records
      → pid_of (read_store_lock_owner (after_turn now s).disk.marker) ≡ some pid
  unfolding holds_counted after_turn write_store_owner_marker read_store_lock_owner
  turn-renews s now counts lives = elim (Option-cases s.entry) [
    | inl no_entry ↦ ground arith
    | inr (holds, e) ↦ ground arith
  ]

  -- All but the renewal, which follows.
  record Counted (touched : Bool) (s : Daemon) : Type 0 where
    counts : holds_counted s.entry ≡ s.records
    one_thread : s.threads ≡ one_if (running s.entry)
    beating : 0 < s.records → s.threads ≡ 1
    marked :
        touched ≡ false → 0 < s.records → pid_of (read_store_lock_owner s.disk.marker) ≡ some pid
    unmarked : touched ≡ false → s.records ≡ 0 → read_store_lock_owner s.disk.marker ≡ none

  claims-Counted :
      (touched : Bool) (s : Daemon) (now budget_ms : ℕ)
      → Counted touched s
      → Counted false (after_claim now budget_ms s)
  unfolding running holds_counted after_claim write_store_owner_marker read_store_lock_owner
  claims-Counted touched s now budget_ms k = ground arith

  ends-Counted :
      (touched : Bool) (s : Daemon)
      → 0 < s.records
      → Counted touched s
      → Counted touched (after_end s)
  unfolding running holds_counted after_end read_store_lock_owner
  ends-Counted touched s some_left k = ground arith

  beats-Counted :
      (touched touched' : Bool) (s : Daemon) (now : ℕ)
      → 0 < s.threads
      → touched' ≡ (touched && s.records == 0)
      → Counted touched s
      → Counted touched' (after_turn now s)
  unfolding running holds_counted after_turn write_store_owner_marker read_store_lock_owner
  beats-Counted touched touched' s now runs e k = ground arith

  Step-Counted :
      {touched touched' : Bool} {s t : Daemon}
      → Step touched s touched' t
      → Counted touched s
      → Counted touched' t
  Step-Counted (claims touched s now budget_ms) k = claims-Counted touched s now budget_ms k
  Step-Counted (ends touched s some_left) k = ends-Counted touched s some_left k
  Step-Counted (beats touched touched' s now runs e) k =
      beats-Counted touched touched' s now runs e k
  Step-Counted (others touched s disk) k = record {
    counts = k.counts;
    one_thread = k.one_thread;
    beating = k.beating;
    marked = λ h. cc;
    unmarked = λ h. cc;
  }

  Reach-Counted : {touched : Bool} {s : Daemon} → Reach touched s → Counted touched s
  unfolding running holds_counted read_store_lock_owner
  Reach-Counted (start locked) = record {
    counts = refl;
    one_thread = refl;
    beating = λ h. omega arith;
    marked = λ h lives. absurd (omega arith);
    unmarked = λ h none_lives. refl;
  }
  Reach-Counted (next r s) = Step-Counted s (Reach-Counted r)

  -- In every order of the daemon's claims, ends and heartbeat turns and of whatever others do to the disk:
  -- while a call's record lives, exactly one thread of the daemon runs, and its next turn leaves a marker
  -- that names the daemon. Unless others changed the disk after the daemon last wrote the marker, it names
  -- it now while a record lives, and there is none when no record lives.
  pub Reach-Kept : {touched : Bool} {s : Daemon} → Reach touched s → Kept touched s
  Reach-Kept {s = s} r =
      let k = Reach-Counted r in
      record {
        counts = k.counts;
        one_thread = k.one_thread;
        beating = k.beating;
        marked = k.marked;
        unmarked = k.unmarked;
        renewed = λ now lives. turn-renews s now k.counts lives;
      }
