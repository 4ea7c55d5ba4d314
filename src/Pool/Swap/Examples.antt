-- ===== src/Pool/Swap/Examples.antt =====
-- Concrete pools of crates/agentplug-host/src/registry.rs.
use agentplug.Base.{◌+◌, ◌≤◌, one_if, ◌≡◌, refl, true, false, [], ◌∷◌, none, some, arith, length}
use agentplug.Base.Maps.{string_key, lookup, insert}
use agentplug.Pool.Swap.{
  PoolSlot, owed, holds, scan_slot, add_debt, evict_content, evict_if_swap_pending,
  request_store_swap,
}
use agentplug.Pool.Swap.Debt.{held}
use agentplug.Pool.Swap.Threads.{
  World, current, swapped, Reach, start, later, finishes, begins, scans, posts,
}
use agentplug.Pool.Swap.Evictions.{swapped-evicts}

abbrev busy_old : PoolSlot
busy_old = record { content = some "a"; locked = true }

abbrev idle_old : PoolSlot
idle_old = record { content = some "a"; locked = false }

-- One instance is evicted at once, the other is owed.
request_two : request_store_swap "a" (record { slots = busy_old ∷ idle_old ∷ []; pending = [] }) ≡ (
  record {
    slots = busy_old ∷ record { content = none; locked = false } ∷ [];
    pending = ("a", 1) ∷ [];
  },
  1,
  1,
)
unfolding request_store_swap insert lookup
request_two = refl

abbrev before : World
before = record {
  pool = record { slots = busy_old ∷ []; pending = [] };
  phase = current;
  brought = 0;
}

abbrev after : World
after = record {
  pool = record { slots = busy_old ∷ []; pending = ("a", 1) ∷ [] };
  phase = swapped;
  brought = 0;
}

after-Reach : Reach "a" before after
unfolding scan_slot add_debt insert lookup
after-Reach =
    later (later (later (start refl) begins) (scans 0 0 busy_old refl refl))
      (posts 1 1 refl (omega arith))

swapped-evicts_example :
    (held "a" (length after.pool.slots) after.pool.slots ≤ owed "a" after.pool.pending + 0)
    × (one_if (holds "a" (evict_if_swap_pending busy_old after.pool.pending).0) ≤ 0)
swapped-evicts_example =
    swapped-evicts "a" {first = before} {w = after} 0 busy_old after-Reach refl refl

-- A dispatch that ends between the loop and the debt keeps its old instance: the request returns with a
-- free slot that still has it.
abbrev missed : World
missed = record {
  pool = record { slots = idle_old ∷ []; pending = ("a", 1) ∷ [] };
  phase = swapped;
  brought = 0;
}

missed-Reach : Reach "a" before missed
unfolding scan_slot add_debt evict_if_swap_pending evict_content insert lookup
missed-Reach =
    later
      (later (later (later (start refl) begins) (scans 0 0 busy_old refl refl))
        (finishes 0 busy_old refl refl))
      (posts 1 1 refl (omega arith))
