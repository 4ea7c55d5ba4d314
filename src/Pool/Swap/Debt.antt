-- ===== src/Pool/Swap/Debt.antt =====
-- How the operations on a slot change the number of instances of the old bytes and the evictions owed.
use agentplug.Base.{
  ℕ, zero, suc, ap, ◌+◌, ◌-◌, ◌≤◌, ◌<◌, ◌≡◌, refl, ◌==◌, ltb, false, ◌&&◌, List, [], ◌∷◌, Option,
  none, some, String, str_eq, eq_iff, if◌then◌else◌, length, get_elem?, set, one_if, arith,
  Option-cases, if-cases, inl, inr,
}
use agentplug.Base.Maps.{string_key, lookup, lookup-insert, lookup-remove}
use agentplug.Pool.Swap.{
  PoolSlot, Pending, is_made_of, holds, error_content, owed, scan_slot, add_debt,
  note_pending_eviction_consumed, consume, is_pending, evict_content,
}

-- How many of the first slots hold an instance of the bytes.
pub held : String → ℕ → List PoolSlot → ℕ
held hash zero slots = 0
held hash (suc i) [] = 0
held hash (suc i) (s ∷ slots) = one_if (holds hash s) + held hash i slots

abbrev held_in : String → Option PoolSlot → ℕ
held_in hash none = 0
held_in hash (some s) = one_if (holds hash s)

pub held-set :
    (hash : String) (i j : ℕ) (slots : List PoolSlot) (s s' : PoolSlot)
    → get_elem? slots j ≡ some s
    → held hash i (set slots j s') + one_if (holds hash s && ltb j i)
      ≡ held hash i slots + one_if (holds hash s' && ltb j i)
unfolding held
held-set hash i j [] s s' found = cc
held-set hash zero j (x ∷ slots) s s' found = ground arith
held-set hash (suc i) zero (x ∷ slots) s s' found = ground (arith, ap (held_in hash) found)
held-set hash (suc i) (suc j) (x ∷ slots) s s' found =
    ground (arith, held-set hash i j slots s s' found)

pub held-suc :
    (hash : String) (i : ℕ) (slots : List PoolSlot) (s : PoolSlot)
    → get_elem? slots i ≡ some s
    → held hash (suc i) slots ≡ held hash i slots + one_if (holds hash s)
unfolding held
held-suc hash i [] s found = cc
held-suc hash zero (x ∷ slots) s found = ground (arith, ap (held_in hash) found)
held-suc hash (suc i) (x ∷ slots) s found = omega (arith, held-suc hash i slots s found)

pub length-set :
    (slots : List PoolSlot) (j : ℕ) (s : PoolSlot) → length (set slots j s) ≡ length slots
length-set [] j s = refl
length-set (x ∷ slots) zero s = refl
length-set (x ∷ slots) (suc j) s = omega (arith, length-set slots j s)

owed-consume :
    (hash other : String) (pending : Pending)
    → owed hash (note_pending_eviction_consumed other pending)
      ≡ (if str_eq other hash then owed hash pending - 1 else owed hash pending)
unfolding note_pending_eviction_consumed consume
owed-consume hash other pending = elim (Option-cases (lookup other pending)) [
  | inl missing ↦ rw missing (ground (arith, eq_iff other hash, missing))
  | inr (n, found) ↦ rw found (
      if-cases
        (λ (p : Pending).
          owed hash p ≡ (if str_eq other hash then owed hash pending - 1 else owed hash pending))
        (n - 1 == 0)
        (λ last. ground (arith, eq_iff other hash, lookup-remove other hash pending, found))
        (λ more.
          ground (arith, eq_iff other hash, lookup-insert other hash (n - 1) pending, found)))
]

pub get_elem-lt :
    (slots : List PoolSlot) (j : ℕ) (s : PoolSlot) → get_elem? slots j ≡ some s → j < length slots
get_elem-lt [] j s found = cc
get_elem-lt (x ∷ slots) zero s found = omega arith
get_elem-lt (x ∷ slots) (suc j) s found = omega (arith, get_elem-lt slots j s found)

module _ (old : String) where
  -- A change of a slot's content that pays for each instance of the old bytes that goes, and brings so many.
  pub record Settles (brought : ℕ) (content content' : Option String) (pending pending' : Pending)
      : Type 0 where
    pub none_new : one_if (is_made_of old content') ≤ one_if (is_made_of old content) + brought
    pub paid :
        owed old pending + one_if (is_made_of old content')
        ≤ owed old pending' + one_if (is_made_of old content) + brought

  pub evict_content-Settles :
      (content : Option String) (pending : Pending)
      → Settles 0 content
          (evict_content content pending).0
          pending
          (evict_content content pending).1
  unfolding evict_content
  evict_content-Settles none pending = record { none_new = omega arith; paid = omega arith }
  evict_content-Settles (some c) pending =
      if-cases (λ (o : Option String × Pending). Settles 0 (some c) o.0 pending o.1)
        (is_pending c pending)
        (λ due. record {
          none_new = omega arith;
          paid = ground (arith, owed-consume old c pending);
        })
        (λ clear. record { none_new = omega arith; paid = omega arith })

  pub error_content-Settles :
      (refilled content : Option String) (pending : Pending)
      → Settles
          (one_if (is_made_of old refilled))
          content
          (error_content refilled content pending).0
          pending
          (error_content refilled content pending).1
  unfolding error_content
  error_content-Settles refilled none pending = record {
    none_new = omega arith;
    paid = omega arith;
  }
  error_content-Settles refilled (some c) pending = record {
    none_new = omega arith;
    paid = ground (arith, owed-consume old c pending);
  }

  pub held-zero : (slots : List PoolSlot) → held old zero slots ≤ 0
  unfolding held
  held-zero slots = omega arith

  pub get-held :
      (slots : List PoolSlot) (j : ℕ) (s : PoolSlot)
      → get_elem? slots j ≡ some s
      → one_if (holds old s) ≤ held old (length slots) slots
  unfolding held
  get-held [] j s found = cc
  get-held (x ∷ slots) zero s found = ground (arith, ap (held_in old) found)
  get-held (x ∷ slots) (suc j) s found = omega (arith, get-held slots j s found)

  pub held-all :
      (i : ℕ) (slots : List PoolSlot)
      → length slots ≤ i
      → held old (length slots) slots ≤ held old i slots
  unfolding held
  held-all i [] short = omega arith
  held-all zero (s ∷ slots) short = absurd (omega (arith, short))
  held-all (suc i) (s ∷ slots) short = omega (arith, held-all i slots (omega (arith, short)))

  pub same-Settles :
      (content : Option String) (pending : Pending) → Settles 0 content content pending pending
  same-Settles content pending = record { none_new = omega arith; paid = omega arith }

  -- Putting something into a slot, or clearing it.
  pub put-Settles :
      (content content' : Option String) (pending : Pending)
      → is_made_of old content ≡ false
      → Settles (one_if (is_made_of old content')) content content' pending pending
  put-Settles content content' pending vacant = record {
    none_new = omega arith;
    paid = omega arith;
  }

  pub clear-Settles :
      (content : Option String) (pending : Pending) → Settles 0 content none pending pending
  clear-Settles content pending = record { none_new = omega arith; paid = omega arith }

  -- A turn of the loop for other bytes leaves the instances of the old.
  pub scan_other-Settles :
      (other : String) (s : PoolSlot) (pending : Pending)
      → Settles 0 s.content (scan_slot other s).0.content pending pending
  unfolding scan_slot
  scan_other-Settles other s pending =
      if-cases (λ (o : PoolSlot × ℕ × ℕ). Settles 0 s.content o.0.content pending pending) s.locked
        (λ busy. record { none_new = omega arith; paid = omega arith })
        (λ free.
          if-cases (λ (o : PoolSlot × ℕ × ℕ). Settles 0 s.content o.0.content pending pending)
            (holds other s) (λ evicted. record { none_new = omega arith; paid = omega arith })
            (λ kept. record { none_new = omega arith; paid = omega arith }))

  pub owed-add_debt :
      (other : String) (d : ℕ) (pending : Pending)
      → owed old (add_debt other d pending) ≡ owed old pending + (if str_eq other old then d else 0)
  unfolding add_debt
  owed-add_debt other d pending =
      if-cases
        (λ (p : Pending). owed old p ≡ owed old pending + (if str_eq other old then d else 0))
        (ltb 0 d)
        (λ some_busy.
          ground
            (arith, eq_iff other old, lookup-insert other old (owed other pending + d) pending))
        (λ none_busy. ground (arith, none_busy))

  -- What the loop has passed is counted in what it deferred.
  pub scan_slot-counts :
      (s : PoolSlot) → one_if (holds old (scan_slot old s).0) ≤ (scan_slot old s).2
  unfolding scan_slot
  scan_slot-counts s =
      if-cases (λ (o : PoolSlot × ℕ × ℕ). one_if (holds old o.0) ≤ o.2) s.locked
        (λ busy. ground arith)
        (λ free.
          if-cases (λ (o : PoolSlot × ℕ × ℕ). one_if (holds old o.0) ≤ o.2) (holds old s)
            (λ evicted. omega arith) (λ kept. ground (arith, kept)))
