-- ===== src/StoreLock.antt =====
-- The lock on a project's store between daemons: `settle_store_lock`, `reclaim_store_lock` and
-- `StoreOwnerRecord` of crates/agentplug-runner/src/daemon/claim_dispatch.rs. The directory gm.db.lock and
-- the marker gm.db.lock.owner beside it are the disk, which all processes share.
pub mod Reclaiming
pub mod Owners
mod Examples
use agentplug.Base.{
  ℕ, zero, suc, ◌+◌, ◌-◌, ◌==◌, leb, Bool, true, false, not, ◌&&◌, ◌||◌, Option, none, some,
  if◌then◌else◌, max,
}

abbrev pub store_owner_heartbeat_ms : ℕ
store_owner_heartbeat_ms = 15_000

abbrev pub store_lock_stale_ms : ℕ
store_lock_stale_ms = 45_000

abbrev pub wall_clock_skew_tolerance_ms : ℕ
wall_clock_skew_tolerance_ms = 5_000

-- The marker's first and second line, as far as they are numbers, and when it was written.
pub record Marker : Type 0 where
  pub pid_line : Option ℕ
  pub ts_line : Option ℕ
  pub modified : ℕ

-- Whether the lock's directory is there, and the marker.
pub record Disk : Type 0 where
  pub locked : Bool
  pub marker : Option Marker

pub data StoreLockState : Type 0 where
  clear reclaimed : StoreLockState
  held : (owner_pid : Option ℕ) → StoreLockState

-- `ts` and its pid, of a marker that has a pid.
pub record Owner : Type 0 where
  pub pid : ℕ
  pub ts : ℕ

abbrev ts_or_zero : Option ℕ → ℕ
ts_or_zero none = 0
ts_or_zero (some ts) = ts

unfoldable pub read_store_lock_owner : Option Marker → Option Owner
read_store_lock_owner none = none
read_store_lock_owner (some m) = elim m.pid_line [
  | none ↦ none
  | some pid ↦ some (record { pid = pid; ts = ts_or_zero m.ts_line })
]

abbrev age_of_file : ℕ → Option Marker → ℕ
age_of_file now none = 0
age_of_file now (some m) = now - m.modified

-- A stamp far ahead of the clock is judged by the file's time instead.
pub stamp_age_ms : ℕ → ℕ → Option Marker → ℕ
stamp_age_ms now stamp file =
    if leb stamp (now + wall_clock_skew_tolerance_ms) then now - stamp else age_of_file now file

pub owner_record_is_stale : ℕ → ℕ → Option Marker → Bool
unfolding stamp_age_ms
owner_record_is_stale now ts file = leb store_lock_stale_ms (stamp_age_ms now ts file)

abbrev same_owner : Option Owner → Option Owner → Bool
same_owner none none = true
same_owner (some a) (some b) = a.pid == b.pid && a.ts == b.ts
same_owner a b = false

abbrev pub pid_of : Option Owner → Option ℕ
pid_of none = none
pid_of (some owner) = some owner.pid

-- What happens around a reclaim: what others do before the lock is moved aside, before the marker is, and
-- before they are put back, and whether moving, restoring and removing the lock succeed.
pub record Interference : Type 0 where
  pub before_lock : Disk → Disk
  pub before_marker : Disk → Disk
  pub before_restore : Disk → Disk
  pub moves : Bool
  pub restores : Bool
  pub removes : Bool

-- The marker that was moved aside comes back unless a new one is there.
put_back : Option Marker → Option Marker → Option Marker
put_back taken none = taken
put_back taken (some newer) = some newer

restore : Interference → Option Marker → Disk → Disk × StoreLockState
unfolding put_back
restore env taken d =
    let seen = env.before_restore d in
    let marker = put_back taken seen.marker in
    (
      record { locked = seen.locked || env.restores; marker = marker },
      held (pid_of (read_store_lock_owner marker)),
    )

unfoldable pub reclaim_store_lock : Option Owner → Interference → Disk → Disk × StoreLockState
unfolding restore
reclaim_store_lock judged env d =
    let found = env.before_lock d in
    let parked = env.before_marker (record found { locked = false }) in
    let gone = record parked { marker = none } in
    if not (found.locked && env.moves)
    then (found, held none)
    else if not (same_owner (read_store_lock_owner parked.marker) judged)
    then restore env parked.marker gone
    else if env.removes
    then (gone, reclaimed)
    else (gone, held none)

settle_owner : ℕ → (ℕ → Bool) → ℕ → Interference → Option Owner → Disk → Disk × StoreLockState
unfolding owner_record_is_stale reclaim_store_lock
settle_owner own_pid pid_is_alive now env none d = reclaim_store_lock none env d
settle_owner own_pid pid_is_alive now env (some owner) d =
    if (owner.pid == own_pid || pid_is_alive owner.pid)
      && not (owner_record_is_stale now owner.ts d.marker)
    then (d, held (some owner.pid))
    else reclaim_store_lock (some owner) env d

unfoldable pub settle_store_lock : ℕ → (ℕ → Bool) → ℕ → Interference → Disk → Disk × StoreLockState
unfolding settle_owner read_store_lock_owner
settle_store_lock own_pid pid_is_alive now env d =
    if d.locked
    then settle_owner own_pid pid_is_alive now env (read_store_lock_owner d.marker) d
    else (d, clear)

pub record StoreOwnerHolds : Type 0 where
  pub count : ℕ
  pub hold_until_ms : ℕ
  pub heartbeat_running : Bool

-- The entry of one path in the map of a process.
abbrev holds_or_default : Option StoreOwnerHolds → StoreOwnerHolds
holds_or_default none = record { count = 0; hold_until_ms = 0; heartbeat_running = false }
holds_or_default (some holds) = holds

unfoldable pub write_store_owner_marker : ℕ → ℕ → Disk → Disk
write_store_owner_marker pid now d = record d {
  marker = some (record { pid_line = some pid; ts_line = some now; modified = now });
}

-- `StoreOwnerRecord::claim`, and whether it spawns the heartbeat's thread.
unfoldable pub claim_store :
    ℕ → ℕ → ℕ → Option StoreOwnerHolds → Disk → StoreOwnerHolds × Disk × Bool
unfolding write_store_owner_marker
claim_store pid now budget_ms entry d =
    let holds = holds_or_default entry in
    (
      record {
        count = holds.count + 1;
        hold_until_ms = max holds.hold_until_ms (now + budget_ms);
        heartbeat_running = true;
      },
      write_store_owner_marker pid now d,
      not holds.heartbeat_running,
    )

-- One turn of the heartbeat's thread, and whether it goes on.
unfoldable pub store_heartbeat_turn :
    ℕ → ℕ → Option StoreOwnerHolds → Disk → Option StoreOwnerHolds × Disk × Bool
unfolding write_store_owner_marker
store_heartbeat_turn pid now none d = (none, d, false)
store_heartbeat_turn pid now (some holds) d =
    if holds.count == 0
    then (some (record holds { heartbeat_running = false }), d, false)
    else (some holds, write_store_owner_marker pid now d, true)

abbrev without_marker : Disk → Disk
without_marker d = record d { marker = none }

-- `StoreOwnerRecord::drop`
unfoldable pub drop_store_owner : Option StoreOwnerHolds → Disk → Option StoreOwnerHolds × Disk
drop_store_owner none d = (none, without_marker d)
drop_store_owner (some holds) d =
    let left = record holds { count = holds.count - 1 } in
    (some left, if left.count == 0 then without_marker d else d)
