-- ===== src/StoreLock/Examples.antt =====
-- Daemons at one project's store: concrete runs of
-- crates/agentplug-runner/src/daemon/claim_dispatch.rs.
use agentplug.Base.{true, false, none, some, ◌≡◌, refl, arith}
use agentplug.StoreLock.{
  Disk, reclaimed, held, read_store_lock_owner, Interference, reclaim_store_lock, settle_store_lock,
  claim_store, drop_store_owner,
}
use agentplug.StoreLock.Reclaiming.{
  Spares, settle_store_lock-Spares, Abandoned, Taken, settle_store_lock-Taken, undisturbed,
  drop_store_owner-exposes,
}
use agentplug.StoreLock.Owners.{
  Daemon, Reach, start, next, claims, ends, beats, others, Kept, Reach-Kept, after_claim, after_end,
  after_turn,
}

abbrev locked : Disk
locked = record { locked = true; marker = none }

-- Others take the lock away after the claim.
settle_store_lock-Spares_example :
    let seen = record (claim_store 7 1000 500 none locked).1 { locked = false } in
    Spares 7 seen (settle_store_lock 9 (λ pid. true) 45_999 undisturbed seen)
settle_store_lock-Spares_example =
    settle_store_lock-Spares 7 1000 500 9 45_999 (λ pid. true) undisturbed none locked
      (record (claim_store 7 1000 500 none locked).1 { locked = false }) refl (omega arith)
      (omega arith) refl

-- Another process writes its marker between the judging and the move.
abbrev retaken : Interference
retaken = record {
  before_lock = λ d. d;
  before_marker = λ d. record d {
    marker = some (record { pid_line = some 8; ts_line = some 2000; modified = 2000 });
  };
  before_restore = λ d. d;
  moves = true;
  restores = true;
  removes = true;
}

reclaim_retaken : (reclaim_store_lock none retaken locked).1 ≡ held (some 8)
unfolding reclaim_store_lock read_store_lock_owner
reclaim_retaken = refl

-- Process 8 claimed the store and is not alive.
abbrev left_locked : Disk
left_locked = record {
  locked = true;
  marker = some (record { pid_line = some 8; ts_line = some 2000; modified = 2000 });
}

settle_store_lock-Taken_example :
    (left_locked.locked ≡ true)
    × Abandoned 9 (λ pid. false) 3000 left_locked.marker (read_store_lock_owner left_locked.marker)
    × Taken
        (read_store_lock_owner left_locked.marker)
        undisturbed
        left_locked
        (settle_store_lock 9 (λ pid. false) 3000 undisturbed left_locked).0
unfolding settle_store_lock reclaim_store_lock read_store_lock_owner
settle_store_lock-Taken_example =
    settle_store_lock-Taken 9 3000 (λ pid. false) undisturbed left_locked refl

abbrev idle_daemon : Daemon
idle_daemon = record { entry = none; disk = locked; records = 0; threads = 0 }

-- Two calls claim the store and one ends, another process removes the marker, and the thread has its turn.
abbrev two_calls : Daemon
two_calls = after_claim 7 1200 500 (after_claim 7 1000 500 idle_daemon)

abbrev stripped : Daemon
stripped = record (after_end 7 two_calls) { disk = locked }

abbrev one_call : Daemon
one_call = after_turn 7 16_000 stripped

one_call-Reach : Reach 7 false one_call
unfolding after_claim after_end claim_store drop_store_owner
one_call-Reach =
    next
      (next
        (next
          (next (next (start true) (claims false idle_daemon 1000 500))
            (claims false (after_claim 7 1000 500 idle_daemon) 1200 500))
          (ends false two_calls (omega arith)))
        (others false (after_end 7 two_calls) locked))
      (beats true false stripped 16_000 (omega arith) refl)

Reach-Kept_example : Kept 7 false one_call
Reach-Kept_example = Reach-Kept 7 one_call-Reach

-- Process 7 holds the lock, and process 8 ends its call.
drop_store_owner-exposes_example :
    let claimed = (claim_store 7 1000 500 none locked).1 in
    let (holds, overwritten, spawns) = claim_store 8 1000 500 none claimed in
    let taken = record overwritten { locked = true } in
    let dropped = (drop_store_owner (some holds) taken).1 in
    (settle_store_lock 9 (λ pid. true) 1001 undisturbed dropped).1 ≡ reclaimed
drop_store_owner-exposes_example = drop_store_owner-exposes 7 8 500 1000 9 1001 (λ pid. true) locked
