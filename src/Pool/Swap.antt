-- ===== src/Pool/Swap.antt =====
-- The slots of a plugin pool and the hashes whose instances are owed an eviction:
-- crates/agentplug-host/src/registry.rs, from `SlotContentSnapshot` to `swap_pending_hashes`. A slot's
-- instance is known by the hash of the bytes it was made of.
pub mod Debt
pub mod Threads
pub mod Evictions
mod Examples
use agentplug.Base.{
  ℕ, ◌+◌, ◌-◌, ◌==◌, ltb, Bool, true, false, not, ◌&&◌, ◌||◌, List, [], ◌∷◌, map, Option, none,
  some, String, str_eq, if◌then◌else◌, any, all, get_elem?, set,
}
use agentplug.Base.Maps.{string_key, lookup, insert, remove}

-- `locked`: a dispatch holds the slot's mutex.
pub record PoolSlot : Type 0 where
  pub content : Option String
  pub locked : Bool

pub data SlotContentSnapshot : Type 0 where
  vacant : SlotContentSnapshot
  loaded : (content_hash : String) → SlotContentSnapshot
  busy_with_dispatch_in_flight : SlotContentSnapshot

abbrev pub Pending : Type 0
Pending = List (String × ℕ)

pub record SwapPool : Type 0 where
  pub slots : List PoolSlot
  pub pending : Pending

abbrev pub is_made_of : String → Option String → Bool
is_made_of hash none = false
is_made_of hash (some h) = str_eq h hash

abbrev pub holds : String → PoolSlot → Bool
holds hash slot = is_made_of hash slot.content

abbrev pub is_loaded : PoolSlot → Bool
is_loaded slot = elim slot.content [ none ↦ false | some h ↦ true ]

pub all_instantiated : SwapPool → Bool
all_instantiated pool = all (λ s. s.locked || is_loaded s) pool.slots

pub any_instantiated_without_blocking : SwapPool → Bool
any_instantiated_without_blocking pool = any (λ s. s.locked || is_loaded s) pool.slots

snapshot : PoolSlot → SlotContentSnapshot
snapshot slot =
    if slot.locked
    then busy_with_dispatch_in_flight
    else (elim slot.content [ none ↦ vacant | some h ↦ loaded h ])

pub slot_snapshot_without_blocking : SwapPool → List SlotContentSnapshot
unfolding snapshot
slot_snapshot_without_blocking pool = map snapshot pool.slots

-- The second component of both: whether an instance went.
evict_free : PoolSlot → PoolSlot × Bool
evict_free slot =
    if not slot.locked && is_loaded slot
    then (record slot { content = none }, true)
    else (slot, false)

evict_free_slots : List PoolSlot → List PoolSlot × Bool
unfolding evict_free
evict_free_slots [] = ([], false)
evict_free_slots (s ∷ slots) =
    let (s', went) = evict_free s in
    let (slots', released) = evict_free_slots slots in (s' ∷ slots', went || released)

pub evict_every_currently_free_slot_without_blocking_on_busy_ones : SwapPool → SwapPool × Bool
unfolding evict_free_slots
evict_every_currently_free_slot_without_blocking_on_busy_ones pool =
    let (slots, released) = evict_free_slots pool.slots in (record pool { slots = slots }, released)

-- One turn of the loop of `request_store_swap`: the slot, and what the turn adds to `evicted` and to
-- `deferred`.
pub scan_slot : String → PoolSlot → PoolSlot × ℕ × ℕ
scan_slot old_hash slot =
    if slot.locked
    then (slot, 0, 1)
    else if holds old_hash slot
    then (record slot { content = none }, 1, 0)
    else (slot, 0, 0)

scan_slots : String → List PoolSlot → List PoolSlot × ℕ × ℕ
unfolding scan_slot
scan_slots old_hash [] = ([], 0, 0)
scan_slots old_hash (s ∷ slots) =
    let (s', e, d) = scan_slot old_hash s in
    let (slots', evicted, deferred) = scan_slots old_hash slots in
    (s' ∷ slots', e + evicted, d + deferred)

abbrev pub owed : String → Pending → ℕ
owed hash pending = elim (lookup hash pending) [ none ↦ 0 | some n ↦ n ]

-- The end of `request_store_swap`: `*entry(old_hash).or_insert(0) += deferred`.
pub add_debt : String → ℕ → Pending → Pending
add_debt old_hash deferred pending =
    if ltb 0 deferred then insert old_hash (owed old_hash pending + deferred) pending else pending

-- `request_store_swap` when nothing else runs.
pub request_store_swap : String → SwapPool → SwapPool × ℕ × ℕ
unfolding scan_slots add_debt
request_store_swap old_hash pool =
    let (slots, evicted, deferred) = scan_slots old_hash pool.slots in
    (record { slots = slots; pending = add_debt old_hash deferred pool.pending }, evicted, deferred)

consume : String → Option ℕ → Pending → Pending
consume hash none pending = pending
consume hash (some n) pending =
    if n - 1 == 0 then remove hash pending else insert hash (n - 1) pending

pub note_pending_eviction_consumed : String → Pending → Pending
unfolding consume
note_pending_eviction_consumed hash pending = consume hash (lookup hash pending) pending

abbrev pub is_pending : String → Pending → Bool
is_pending hash pending = elim (lookup hash pending) [ none ↦ false | some n ↦ true ]

pub evict_content : Option String → Pending → Option String × Pending
unfolding note_pending_eviction_consumed
evict_content none pending = (none, pending)
evict_content (some hash) pending =
    if is_pending hash pending
    then (none, note_pending_eviction_consumed hash pending)
    else (some hash, pending)

-- `evict_if_swap_pending` on the slot that the caller holds.
pub evict_if_swap_pending : PoolSlot → Pending → PoolSlot × Pending
unfolding evict_content
evict_if_swap_pending slot pending =
    let (content, pending') = evict_content slot.content pending in
    (record slot { content = content }, pending')

pub note_bytes_current : String → Pending → Pending
note_bytes_current hash pending = remove hash pending

pub swap_pending_hashes : Pending → List String
swap_pending_hashes pending = map (λ (p : String × ℕ). p.0) pending

pub error_content : Option String → Option String → Pending → Option String × Pending
unfolding note_pending_eviction_consumed
error_content refilled none pending = (none, pending)
error_content refilled (some hash) pending = (refilled, note_pending_eviction_consumed hash pending)

-- A dispatch that fails: what `dispatch_and_evict_on_error` leaves in the slot, when the refill gives
-- `refilled`.
pub evict_on_error : Option String → PoolSlot → Pending → PoolSlot × Pending
unfolding error_content
evict_on_error refilled slot pending =
    let (content, pending') = error_content refilled slot.content pending in
    (record slot { content = content }, pending')
