-- ===== src/Pool/Tickets/Order.antt =====
-- No ticket is lost: each one that was handed out and not yet served belongs to a thread that waits or
-- to one that gave up, and the tickets are served in the order in which they were handed out.
use agentplug.Base.{
  ℕ, zero, suc, ◌+◌, ◌≤◌, ◌≡◌, refl, ◌⊎◌, inl, inr, ◌==◌, leb, ltb, ◌&&◌, List, [], ◌∷◌, none, some,
  one_if, length, set, get_elem?, times, without, without-times, count-append, arith, Bool-cases,
  Option-cases,
}
use agentplug.Pool.Holders.{ClassTicketQueue, new_class_queue}
use agentplug.Pool.Tickets.{
  shift, position, drop_last, last_or, swap_remove, skip_loop, skip_abandoned, abandon, take_ticket,
}

drop_last-times :
    (t : ℕ) (x : ℕ) (xs : List ℕ)
    → times t (x ∷ xs) ≡ times t (drop_last (x ∷ xs)) + one_if (last_or x xs == t)
unfolding drop_last last_or
drop_last-times t x [] = omega arith
drop_last-times t x (y ∷ ys) = ground (arith, drop_last-times t y ys)

-- Writing `v` over the entry at `i` trades one for the other.
set-times :
    (t v : ℕ) (xs : List ℕ) (i y : ℕ)
    → get_elem? xs i ≡ some y
    → times t (set xs i v) + one_if (y == t) ≡ times t xs + one_if (v == t)
set-times t v [] i y e = cc
set-times t v (x ∷ xs) zero y e = ground arith
set-times t v (x ∷ xs) (suc i) y e = ground (arith, set-times t v xs i y)

position-none : (x : ℕ) (ts : List ℕ) → position x ts ≡ none → times x ts ≡ 0
unfolding position shift
position-none x [] e = refl
position-none x (t ∷ ts) e = ground (arith, position-none x ts)

position-get : (x : ℕ) (ts : List ℕ) (i : ℕ) → position x ts ≡ some i → get_elem? ts i ≡ some x
unfolding position shift
position-get x [] i e = cc
position-get x (t ∷ ts) zero e = ground arith
position-get x (t ∷ ts) (suc i) e = ground (arith, position-get x ts i)

-- An entry is before the last one, or it is the last.
get-drop_last :
    (x c : ℕ) (cs : List ℕ) (i v : ℕ)
    → get_elem? (c ∷ cs) i ≡ some x
    → (get_elem? (drop_last (c ∷ cs)) i ≡ some x)
      ⊎ ((set (drop_last (c ∷ cs)) i v ≡ drop_last (c ∷ cs)) × (last_or c cs ≡ x))
unfolding drop_last last_or
get-drop_last x c [] zero v e = inr (refl, ground arith)
get-drop_last x c [] (suc i) v e = cc
get-drop_last x c (d ∷ ds) zero v e = inl e
get-drop_last x c (d ∷ ds) (suc i) v e = ground (arith, get-drop_last x d ds i v)

last_or-cons : (c : ℕ) (cs : List ℕ) → last_or 0 (c ∷ cs) ≡ last_or c cs
unfolding last_or
last_or-cons c cs = refl

swap_remove-times :
    (t x : ℕ) (ts : List ℕ) (i : ℕ)
    → get_elem? ts i ≡ some x
    → times t (swap_remove ts i) + one_if (x == t) ≡ times t ts
unfolding swap_remove
swap_remove-times t x [] i e = cc
swap_remove-times t x (c ∷ cs) i e = ground (
  arith,
  get-drop_last x c cs i (last_or 0 (c ∷ cs)),
  drop_last-times t c cs,
  set-times t (last_or 0 (c ∷ cs)) (drop_last (c ∷ cs)) i x,
  last_or-cons c cs,
)

-- Every ticket from `now_serving` up to `next_ticket` is waited for or abandoned, once, and no other is.
pub record Accounts (q : ClassTicketQueue) (waits : List ℕ) : Type 0 where
  pub in_order : q.now_serving ≤ q.next_ticket
  pub account :
      (t : ℕ)
      → times t waits + times t q.abandoned ≡ one_if (leb q.now_serving t && ltb t q.next_ticket)

skip_one :
    (q : ClassTicketQueue) (waits : List ℕ) (pos : ℕ)
    → Accounts q waits
    → get_elem? q.abandoned pos ≡ some q.now_serving
    → Accounts
        (record q { abandoned = swap_remove q.abandoned pos; now_serving = q.now_serving + 1 })
        waits
skip_one q waits pos v e = record {
  in_order = ground (
    arith,
    v.account q.now_serving,
    swap_remove-times q.now_serving q.now_serving q.abandoned pos e,
  );
  account = λ t. ground (arith, v.account t, swap_remove-times t q.now_serving q.abandoned pos e);
}

skip_loop-Accounts :
    (fuel : ℕ) (q : ClassTicketQueue) (waits : List ℕ)
    → Accounts q waits
    → Accounts (skip_loop fuel q) waits
unfolding skip_loop
skip_loop-Accounts zero q waits v = v
skip_loop-Accounts (suc fuel) q waits v = elim (Option-cases (position q.now_serving q.abandoned)) [
  | inl e ↦ rw (e, skip_loop) v
  | inr (pos, e) ↦
      rw (e, skip_loop)
        (skip_loop-Accounts fuel _ waits
          (skip_one q waits pos v (position-get q.now_serving q.abandoned pos e)))
]

length-set : (xs : List ℕ) (i v : ℕ) → length (set xs i v) ≡ length xs
length-set [] i v = refl
length-set (x ∷ xs) zero v = refl
length-set (x ∷ xs) (suc i) v = omega (arith, length-set xs i v)

length-drop_last : (c : ℕ) (cs : List ℕ) → length (drop_last (c ∷ cs)) ≡ length cs
unfolding drop_last
length-drop_last c [] = refl
length-drop_last c (d ∷ ds) = omega (arith, length-drop_last d ds)

length-swap_remove :
    (ts : List ℕ) (i x : ℕ) → get_elem? ts i ≡ some x → length (swap_remove ts i) + 1 ≡ length ts
unfolding swap_remove
length-swap_remove [] i x e = cc
length-swap_remove (c ∷ cs) i x e =
    omega (arith, length-set (drop_last (c ∷ cs)) i (last_or 0 (c ∷ cs)), length-drop_last c cs)

skip_loop_stops :
    (fuel : ℕ) (q : ClassTicketQueue)
    → length q.abandoned ≤ fuel
    → let q' = skip_loop fuel q in times q'.now_serving q'.abandoned ≡ 0
unfolding skip_loop
skip_loop_stops zero q h = no_times q.now_serving q.abandoned h
  where
    no_times : (x : ℕ) (ts : List ℕ) → length ts ≤ 0 → times x ts ≡ 0
    no_times x [] h = refl
    no_times x (t ∷ ts) h = absurd (omega arith)
skip_loop_stops (suc fuel) q h = elim (Option-cases (position q.now_serving q.abandoned)) [
  | inl e ↦ rw (e, skip_loop) (position-none q.now_serving q.abandoned e)
  | inr (pos, e) ↦
      rw (e, skip_loop)
        (skip_loop_stops fuel _ (
          omega (
            arith,
            length-swap_remove q.abandoned pos q.now_serving
                (position-get q.now_serving q.abandoned pos e),
          )))
]

-- `skip_abandoned` ends at a ticket that nobody gave up, and accounts for the rest as before.
pub skip_abandoned_lem :
    (q : ClassTicketQueue) (waits : List ℕ)
    → Accounts q waits
    → let q' = skip_abandoned q in Accounts q' waits × (times q'.now_serving q'.abandoned ≡ 0)
unfolding skip_abandoned
skip_abandoned_lem q waits v = (
  skip_loop-Accounts (length q.abandoned) q waits v,
  skip_loop_stops (length q.abandoned) q (omega arith),
)

pub new_class_queue-Accounts : Accounts new_class_queue []
new_class_queue-Accounts = record { in_order = omega arith; account = λ t. ground arith }

pub take_ticket-Accounts :
    (q : ClassTicketQueue) (waits : List ℕ)
    → Accounts q waits
    → Accounts (take_ticket q).1 ((take_ticket q).0 ∷ waits)
unfolding take_ticket
take_ticket-Accounts q waits v = record {
  in_order = omega (arith, v.in_order);
  account = λ t. ground (arith, v.account t, v.in_order);
}

-- Giving up a ticket that is waited for keeps the accounts.
pub abandon-Accounts :
    (q : ClassTicketQueue) (waits : List ℕ) (ticket : ℕ)
    → 1 ≤ times ticket waits
    → Accounts q waits
    → Accounts (abandon q ticket) (without ticket waits)
unfolding abandon
abandon-Accounts q waits ticket mine v = elim (Bool-cases (ticket == q.now_serving)) [
  | inl now ↦
      rw now
        (skip_abandoned_lem (record q { now_serving = q.now_serving + 1 }) (without ticket waits)
          (record {
            in_order = ground (arith, v.account ticket);
            account = λ t. ground (arith, v.account t, without-times ticket t waits);
          })).0
  | inr later ↦ rw later (record {
    in_order = v.in_order;
    account = λ t. ground (
      arith,
      v.account t,
      without-times ticket t waits,
      count-append (λ x. x == t) q.abandoned (ticket ∷ []),
    );
  })
]
