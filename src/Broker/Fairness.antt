-- ===== src/Broker/Fairness.antt =====
-- What weighted round robin keeps.
use agentplug.Base.{
  ℕ, ◌+◌, ◌≡◌, ◌≢◌, refl, ◌==◌, List, [], ◌∷◌, Option, none, some, String, str_eq, eq_refl, arith,
  Bool-cases, inl, inr,
}
use agentplug.Base.Maps.{string_key, lookup, insert, lookup-insert}
use agentplug.Base.Ints.{ℤ, pos, pos_part, neg_part, ◌+ℤ◌, ◌-ℤ◌, ltb_ℤ, int_laws, eq_of_parts}
use agentplug.Broker.{
  LoadBalancePolicy, round_robin, least_loaded, BrokerProvider, ServiceBroker, total_weight,
  or_zero, Best, better, raise_all, lowered, settle_winner, select_round_robin, select_by,
  routable_indices, select,
}

-- The sum of the currents.
pub sum_of : List (String × ℤ) → ℤ
sum_of [] = pos 0
sum_of ((id, c) ∷ m) = c +ℤ sum_of m

-- The sum of the first grows by `added` and falls by `taken`, part by part.
abbrev Sums : List (String × ℤ) → List (String × ℤ) → ℤ → ℤ → Type 0
Sums after before added taken =
    pos_part (sum_of after) + pos_part taken + neg_part (sum_of before) + neg_part added
    ≡ neg_part (sum_of after) + neg_part taken + pos_part (sum_of before) + pos_part added

sum_of-insert :
    (id : String) (c : ℤ) (m : List (String × ℤ)) → Sums (insert id c m) m c (or_zero (lookup id m))
unfolding sum_of insert lookup
sum_of-insert id c [] = omega int_laws
sum_of-insert id c ((j, d) ∷ m) = elim (Bool-cases (str_eq j id)) [
  | inl same ↦ rw same (omega int_laws)
  | inr other ↦ rw other (omega (int_laws, sum_of-insert id c m))
]

-- The best provider has an entry.
abbrev HasEntry : List (String × ℤ) → Best → Type 0
HasEntry m none = Unit {0}
HasEntry m (some (i, id, c)) = (v : ℤ) × (lookup id m ≡ some v)

insert_entry :
    (id j : String) (c : ℤ) (m : List (String × ℤ))
    → ((v : ℤ) × (lookup j m ≡ some v))
    → ((v : ℤ) × (lookup j (insert id c m) ≡ some v))
insert_entry id j c m (v, e) = elim (Bool-cases (str_eq id j)) [
  | inl same ↦ (c, rw (lookup-insert id j c m, same) refl)
  | inr other ↦ (v, rw (lookup-insert id j c m, other) e)
]

insert-HasEntry :
    (i : ℕ) (id : String) (c : ℤ) (m : List (String × ℤ)) (best : Best)
    → HasEntry m best
    → HasEntry (insert id c m) (better i id c best)
unfolding better
insert-HasEntry i id c m none h = (c, rw (lookup-insert id id c m, eq_refl id) refl)
insert-HasEntry i id c m (some (j, best_id, best)) h = elim (Bool-cases (ltb_ℤ best c)) [
  | inl more ↦ rw more (c, rw (lookup-insert id id c m, eq_refl id) refl)
  | inr no_more ↦ rw no_more (insert_entry id best_id c m h)
]

raise_all-sum :
    (ps : List (ℕ × BrokerProvider)) (m : List (String × ℤ)) (best : Best)
    → Sums (raise_all ps m best).0 m (pos (total_weight ps)) (pos 0)
unfolding raise_all total_weight
raise_all-sum [] m best = omega int_laws
raise_all-sum ((i, p) ∷ ps) m best =
    let c = or_zero (lookup p.provider_id m) +ℤ pos p.weight in
    omega (
      int_laws,
      raise_all-sum ps (insert p.provider_id c m) (better i p.provider_id c best),
      sum_of-insert p.provider_id c m,
    )

raise_all-HasEntry :
    (ps : List (ℕ × BrokerProvider)) (m : List (String × ℤ)) (best : Best)
    → HasEntry m best
    → HasEntry (raise_all ps m best).0 (raise_all ps m best).1
unfolding raise_all
raise_all-HasEntry [] m best h = h
raise_all-HasEntry ((i, p) ∷ ps) m best h =
    raise_all-HasEntry ps _ _ (insert-HasEntry i p.provider_id _ m best h)

lowered-sum :
    (total : ℕ) (id : String) (m : List (String × ℤ)) (entry : Option ℤ)
    → lookup id m ≡ entry
    → ((v : ℤ) × (entry ≡ some v))
    → Sums (lowered total id m entry) m (pos 0) (pos total)
unfolding lowered
lowered-sum total id m none e (v, f) = cc
lowered-sum total id m (some c) e h =
    omega (int_laws, (rw e at (sum_of-insert id (c -ℤ pos total) m)))

settle_winner-sum :
    (total : ℕ) (m before : List (String × ℤ)) (best : Best)
    → HasEntry m best
    → (best ≡ none → total ≡ 0)
    → Sums m before (pos total) (pos 0)
    → Sums (settle_winner total (m, best)).0 before (pos 0) (pos 0)
unfolding settle_winner
settle_winner-sum total m before none h z s = omega (arith, z refl, s)
settle_winner-sum total m before (some (i, id, c)) h z s =
    omega (int_laws, lowered-sum total id m (lookup id m) refl h, s)

pub better-some : (i : ℕ) (id : String) (c : ℤ) (best : Best) → better i id c best ≢ none
unfolding better
better-some i id c none e = cc
better-some i id c (some (j, best_id, best)) e = elim (Bool-cases (ltb_ℤ best c)) [
  | inl more ↦ let f = (rw more at e) in cc
  | inr no_more ↦ let f = (rw no_more at e) in cc
]

pub raise_all-some :
    (ps : List (ℕ × BrokerProvider)) (m : List (String × ℤ)) (best : Best)
    → best ≢ none
    → (raise_all ps m best).1 ≢ none
unfolding raise_all
raise_all-some [] m best h = h
raise_all-some ((i, p) ∷ ps) m best h = raise_all-some ps _ _ (better-some i p.provider_id _ best)

select_round_robin-sum :
    (routable : List (ℕ × BrokerProvider)) (currents : List (String × ℤ))
    → sum_of (select_round_robin routable currents).0 ≡ sum_of currents
unfolding select_round_robin raise_all
select_round_robin-sum [] currents = refl
select_round_robin-sum ((i, p) ∷ ps) currents =
    elim (Bool-cases (total_weight ((i, p) ∷ ps) == 0)) [
      | inl weightless ↦ rw weightless refl
      | inr weighted ↦ rw weighted (
          eq_of_parts _ _ (
            omega (
              arith,
              settle_winner-sum (total_weight ((i, p) ∷ ps)) _ currents _
                  (raise_all-HasEntry ((i, p) ∷ ps) currents none tt)
                  (λ e. absurd (raise_all-some ps _ _ (better-some i p.provider_id _ none) e))
                  (raise_all-sum ((i, p) ∷ ps) currents none),
            )))
    ]

select_by-sum :
    (policy : LoadBalancePolicy) (routable : List (ℕ × BrokerProvider))
    (currents : List (String × ℤ))
    → sum_of (select_by policy routable currents).0 ≡ sum_of currents
unfolding select_by
select_by-sum round_robin routable currents = select_round_robin-sum routable currents
select_by-sum least_loaded routable currents = refl

-- A choice gives and takes the same weight under either policy: the sum of the currents of a service is
-- what it was before.
pub select-sum :
    (b : ServiceBroker) → sum_of (select b).0.round_robin_current ≡ sum_of b.round_robin_current
unfolding select
select-sum b = select_by-sum b.policy (routable_indices b.providers) b.round_robin_current
