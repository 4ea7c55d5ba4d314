-- ===== src/Pool/Swap/Threads.antt =====
-- The threads that use, load and clear the slots of a pool while the store swap for `old` is requested:
-- crates/agentplug-host/src/registry.rs. A request is a turn of its loop per slot and then the debt.
use agentplug.Base.{
  ℕ, suc, ◌+◌, ◌≤◌, ◌≡◌, true, false, Option, none, some, String, str_eq, one_if, length, get_elem?,
  set,
}
use agentplug.Base.Maps.{string_key}
use agentplug.Pool.Swap.{
  PoolSlot, Pending, SwapPool, is_made_of, scan_slot, add_debt, evict_if_swap_pending,
  note_bytes_current, evict_on_error,
}

-- Where the request for the old bytes stands: none since the bytes were current, its loop is at a slot
-- with a count of deferred slots, or it has returned.
pub data Phase : Type 0 where
  current swapped : Phase
  scanning : (next : ℕ) (deferred : ℕ) → Phase

-- `brought` counts the instances of the old bytes that were put into slots since the request began: a
-- reload may still find the old bytes after a swap has been asked for.
pub record World : Type 0 where
  pub pool : SwapPool
  pub phase : Phase
  pub brought : ℕ

abbrev pub with_slot : World → ℕ → PoolSlot → Pending → World
with_slot w j s pending = record w {
  pool = record { slots = set w.pool.slots j s; pending = pending };
}

module _ (old : String) where
  -- A step that puts a content into a slot.
  abbrev pub brings : Option String → World → World
  brings content w = record w { brought = w.brought + one_if (is_made_of old content) }

  -- One critical section of the daemon's threads. `drops` is a caller that clears the slot it holds, and
  -- one slot of `evict_every_currently_free_slot_without_blocking_on_busy_ones`.
  pub data Step (w : World) : World → Type 0 where
    locks :
        (j : ℕ) (s : PoolSlot)
        → get_elem? w.pool.slots j ≡ some s
        → s.locked ≡ false
        → Step w (with_slot w j (record s { locked = true }) w.pool.pending)
    finishes :
        (j : ℕ) (s : PoolSlot)
        → get_elem? w.pool.slots j ≡ some s
        → s.locked ≡ true
        → Step w (
            with_slot w j
              (record ((evict_if_swap_pending s w.pool.pending).0) { locked = false })
              (evict_if_swap_pending s w.pool.pending).1)
    fails :
        (j : ℕ) (s : PoolSlot) (refilled : Option String)
        → get_elem? w.pool.slots j ≡ some s
        → s.locked ≡ true
        → Step w (
            brings refilled (
              with_slot w j
                (record ((evict_on_error refilled s w.pool.pending).0) { locked = false })
                (evict_on_error refilled s w.pool.pending).1))
    loads :
        (j : ℕ) (s : PoolSlot) (content : Option String)
        → get_elem? w.pool.slots j ≡ some s
        → s.content ≡ none
        → Step w (brings content (with_slot w j (record s { content = content }) w.pool.pending))
    drops :
        (j : ℕ) (s : PoolSlot)
        → get_elem? w.pool.slots j ≡ some s
        → Step w (with_slot w j (record { content = none; locked = false }) w.pool.pending)
    begins : Step w (record w { phase = scanning 0 0; brought = 0 })
    scans :
        (i d : ℕ) (s : PoolSlot)
        → w.phase ≡ scanning i d
        → get_elem? w.pool.slots i ≡ some s
        → Step w (record (with_slot w i (scan_slot old s).0 w.pool.pending) {
          phase = scanning (suc i) (d + (scan_slot old s).2);
        })
    posts :
        (i d : ℕ)
        → w.phase ≡ scanning i d
        → length w.pool.slots ≤ i
        → Step w (record {
          pool = record { slots = w.pool.slots; pending = add_debt old d w.pool.pending };
          phase = swapped;
          brought = w.brought;
        })
    scans_other :
        (j : ℕ) (s : PoolSlot) (other : String)
        → str_eq other old ≡ false
        → get_elem? w.pool.slots j ≡ some s
        → Step w (with_slot w j (scan_slot other s).0 w.pool.pending)
    posts_other :
        (other : String) (d : ℕ)
        → str_eq other old ≡ false
        → Step w (record w {
          pool = record { slots = w.pool.slots; pending = add_debt other d w.pool.pending };
        })
    renews :
        w.phase ≡ swapped
        → Step w (record {
          pool = record { slots = w.pool.slots; pending = note_bytes_current old w.pool.pending };
          phase = current;
          brought = w.brought;
        })
    renews_other :
        (other : String)
        → str_eq other old ≡ false
        → Step w (record w {
          pool = record { slots = w.pool.slots; pending = note_bytes_current other w.pool.pending };
        })

  pub data Reach (first : World) : World → Type 0 where
    start : first.phase ≡ current → Reach first first
    later : {w w' : World} → Reach first w → Step w w' → Reach first w'
