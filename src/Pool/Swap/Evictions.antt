-- ===== src/Pool/Swap/Evictions.antt =====
-- The instances of the old bytes in a pool while a store swap is requested, and the evictions of them that
-- are owed: crates/agentplug-host/src/registry.rs.
use agentplug.Base.{
  ℕ, suc, ◌+◌, ◌≤◌, ◌≡◌, refl, true, false, List, Option, none, some, String, eq_iff, eq_refl,
  subst, length, get_elem?, set, one_if, arith,
}
use agentplug.Base.Maps.{string_key, lookup-remove}
use agentplug.Pool.Swap.{
  PoolSlot, Pending, is_made_of, holds, owed, scan_slot, evict_content, evict_if_swap_pending,
  note_bytes_current, evict_on_error,
}
use agentplug.Pool.Swap.Debt.{
  held, held-set, held-suc, length-set, get_elem-lt, Settles, evict_content-Settles,
  error_content-Settles, put-Settles, clear-Settles, same-Settles, held-all, held-zero, get-held,
  scan_other-Settles, owed-add_debt, scan_slot-counts,
}
use agentplug.Pool.Swap.Threads.{
  Phase, current, swapped, scanning, World, Step, locks, finishes, fails, loads, drops, begins,
  scans, posts, scans_other, posts_other, renews, renews_other, Reach, start, later,
}

module _ (old : String) where
  abbrev Owes : Phase → ℕ → List PoolSlot → Pending → Type 0
  Owes current brought slots pending = Unit {0}
  Owes (scanning i d) brought slots pending = held old i slots ≤ d + brought
  Owes swapped brought slots pending = held old (length slots) slots ≤ owed old pending + brought

  -- A step that writes one slot and leaves the phase.
  set-Owes :
      (phase : Phase) (brought more : ℕ) (slots : List PoolSlot) (pending pending' : Pending)
      (j : ℕ) (s s' : PoolSlot)
      → get_elem? slots j ≡ some s
      → Settles old more s.content s'.content pending pending'
      → Owes phase brought slots pending
      → Owes phase (brought + more) (set slots j s') pending'
  set-Owes current brought more slots pending pending' j s s' found v owes = tt
  set-Owes (scanning i d) brought more slots pending pending' j s s' found v owes =
      ground (arith, held-set old i j slots s s' found, v.none_new)
  set-Owes swapped brought more slots pending pending' j s s' found v owes =
      rw (length-set slots j s') (
        ground (
          arith,
          held-set old (length slots) j slots s s' found,
          get_elem-lt slots j s found,
          v.none_new,
          v.paid,
        ))

  -- One that brings in no instance of the old bytes.
  slot-Owes :
      (w : World) (j : ℕ) (s s' : PoolSlot) (pending' : Pending)
      → get_elem? w.pool.slots j ≡ some s
      → Settles old 0 s.content s'.content w.pool.pending pending'
      → Owes w.phase w.brought w.pool.slots w.pool.pending
      → Owes w.phase w.brought (set w.pool.slots j s') pending'
  slot-Owes w j s s' pending' found v owes =
      let same : w.brought + 0 ≡ w.brought = omega arith in
      subst (λ n. Owes w.phase n (set w.pool.slots j s') pending') same
        (set-Owes w.phase w.brought 0 w.pool.slots w.pool.pending pending' j s s' found v owes)

  pending-Owes :
      (phase : Phase) (brought : ℕ) (slots : List PoolSlot) (pending pending' : Pending)
      → owed old pending ≤ owed old pending'
      → Owes phase brought slots pending
      → Owes phase brought slots pending'
  pending-Owes current brought slots pending pending' least owes = tt
  pending-Owes (scanning i d) brought slots pending pending' least owes = owes
  pending-Owes swapped brought slots pending pending' least owes = omega (arith, least, owes)

  scan-Owes :
      (i d brought : ℕ) (slots : List PoolSlot) (s : PoolSlot)
      → get_elem? slots i ≡ some s
      → held old i slots ≤ d + brought
      → held old (suc i) (set slots i (scan_slot old s).0) ≤ d + (scan_slot old s).2 + brought
  scan-Owes i d brought slots s found owes =
      let s' = (scan_slot old s).0 in
      ground (
        arith,
        held-set old (suc i) i slots s s' found,
        held-suc old i slots s found,
        scan_slot-counts old s,
        owes,
      )

  Step-Owes :
      {w w' : World}
      → Step old w w'
      → Owes w.phase w.brought w.pool.slots w.pool.pending
      → Owes w'.phase w'.brought w'.pool.slots w'.pool.pending
  unfolding evict_if_swap_pending evict_on_error note_bytes_current
  Step-Owes (locks j s found free) owes =
      slot-Owes _ j s (record s { locked = true }) _ found (same-Settles old s.content _) owes
  Step-Owes (finishes j s found busy) owes =
      slot-Owes _ j s _ _ found (evict_content-Settles old s.content _) owes
  Step-Owes {w = w} (fails j s refilled found busy) owes =
      set-Owes w.phase w.brought _ _ _ _ j s _ found
        (error_content-Settles old refilled s.content _) owes
  Step-Owes {w = w} (loads j s content found vacant) owes =
      set-Owes w.phase w.brought _ _ _ _ j s _ found
        (put-Settles old s.content content _ (rw vacant refl)) owes
  Step-Owes (drops j s found) owes =
      slot-Owes _ j s (record { content = none; locked = false }) _ found
        (clear-Settles old s.content _) owes
  Step-Owes {w = w} begins owes = held-zero old w.pool.slots
  Step-Owes {w = w} (scans i d s e found) owes = scan-Owes i d w.brought _ s found (rw e at owes)
  Step-Owes {w = w} (posts i d e end) owes = ground (
    arith,
    rw e at owes,
    held-all old i w.pool.slots end,
    owed-add_debt old old d w.pool.pending,
    eq_refl old,
  )
  Step-Owes (scans_other j s other differs found) owes =
      slot-Owes _ j s _ _ found (scan_other-Settles old other s _) owes
  Step-Owes {w = w} (posts_other other d differs) owes =
      pending-Owes w.phase w.brought w.pool.slots _ _
        (omega (arith, owed-add_debt old other d w.pool.pending)) owes
  Step-Owes (renews e) owes = tt
  Step-Owes {w = w} (renews_other other differs) owes =
      pending-Owes w.phase w.brought w.pool.slots _ _
        (ground (arith, lookup-remove other old w.pool.pending, differs)) owes

  Reach-Owes :
      {first w : World} → Reach old first w → Owes w.phase w.brought w.pool.slots w.pool.pending
  Reach-Owes (start fresh) = rw fresh tt
  Reach-Owes (later r step) = Step-Owes step (Reach-Owes r)

  evicts_owed :
      (content : Option String) (pending : Pending) (brought : ℕ)
      → one_if (is_made_of old content) ≤ owed old pending + brought
      → one_if (is_made_of old (evict_content content pending).0) ≤ brought
  unfolding evict_content
  evicts_owed none pending brought least = omega arith
  evicts_owed (some c) pending brought least = ground (arith, eq_iff c old, least)

  -- From any pool, when a store swap of the old bytes has been asked for and has returned, and the bytes
  -- are not current again, whatever the loads and refills since the request put into the slots: the
  -- instances of the old bytes in the pool are at most the evictions of it that are owed and those that
  -- were put into slots since the request began; and a dispatch that ends well in a slot of the pool leaves
  -- one there only if some were put into slots since.
  pub swapped-evicts :
      {first w : World} (j : ℕ) (s : PoolSlot)
      → Reach old first w
      → w.phase ≡ swapped
      → get_elem? w.pool.slots j ≡ some s
      → (held old (length w.pool.slots) w.pool.slots ≤ owed old w.pool.pending + w.brought)
        × (one_if (holds old (evict_if_swap_pending s w.pool.pending).0) ≤ w.brought)
  unfolding evict_if_swap_pending
  swapped-evicts {w = w} j s r is_swapped found =
      let owes = (rw is_swapped at (Reach-Owes r)) in
      (
        owes,
        evicts_owed s.content w.pool.pending w.brought
            (omega (arith, owes, get-held old w.pool.slots j s found)),
      )
