-- ===== src/ExecPool/Examples.antt =====
-- Concrete gates of crates/agentplug-host/src/exec_pool.rs.
use agentplug.Base.{◌≤◌, ◌<◌, ◌≡◌, refl, [], ◌∷◌, some, arith}
use agentplug.ExecPool.{take_ticket, try_start, acquire_loop, drop_lease}
use agentplug.ExecPool.Order.{Workers, Reach, start, later, arrives, starts, Reach-first_come}

-- With one worker: ticket 0 runs, 1 and 2 wait.
abbrev one_runs : Workers
one_runs = record {
  gate = record { running = 1; next_ticket = 3; queue = 1 ∷ 2 ∷ [] };
  waits = 2 ∷ 1 ∷ [];
  leases = 1;
}

one_runs-Reach : Reach 1 one_runs
unfolding take_ticket try_start
one_runs-Reach =
    later (later (later (later start arrives) (starts 0 (omega arith) refl)) arrives) arrives

-- The same calls with two workers.
one_runs-Reach_two : Reach 2 one_runs
unfolding take_ticket try_start
one_runs-Reach_two =
    later (later (later (later start arrives) (starts 0 (omega arith) refl)) arrives) arrives

-- The call with ticket 1 waits until the lease is dropped.
acquire_waits :
    acquire_loop 1 1 (one_runs.gate ∷ drop_lease one_runs.gate ∷ [])
    ≡ some (record { running = 1; next_ticket = 3; queue = 2 ∷ [] })
unfolding acquire_loop try_start drop_lease
acquire_waits = refl

Reach-first_come_example : (one_runs.leases < 2) × (1 ≤ 2)
unfolding try_start
Reach-first_come_example =
    Reach-first_come {size = 2} {w = one_runs} 1 2 one_runs-Reach_two refl (omega arith)
