-- ===== src/Broker/Selection.antt =====
-- Which provider a call goes to.
use agentplug.Base.{
  ℕ, suc, ◌⊎◌, true, ◌+◌, ◌≤◌, ◌≡◌, ◌≢◌, refl, ap, ◌==◌, ltb, false, not, ◌&&◌, List, [], ◌∷◌,
  Option, none, some, String, get_elem?, All, arith, Bool-cases, inl, inr, subst,
}
use agentplug.Base.Maps.{string_key}
use agentplug.Base.Ints.{ℤ, ltb_ℤ}
use agentplug.Broker.Fairness.{better-some, raise_all-some}
use agentplug.Broker.{
  LoadBalancePolicy, round_robin, least_loaded, BrokerProvider, ServiceBroker, routable_from,
  routable_indices, total_weight, Best, better, raise_all, settle_winner, least_of,
  least_loaded_index, select_round_robin, select_by, select,
}

-- A provider of the list that takes calls, at its index.
pub record IsRoutable (ps : List BrokerProvider) (i : ℕ) : Type 0 where
  pub provider : BrokerProvider
  pub there : get_elem? ps i ≡ some provider
  pub not_draining : provider.draining ≡ false
  pub weighted : 1 ≤ provider.weight

module _ (all : List BrokerProvider) where
  abbrev Routes : List (ℕ × BrokerProvider) → Type 0
  Routes = All (λ (e : ℕ × BrokerProvider). IsRoutable all e.0)

  routable_from-Routes :
      (i : ℕ) (ps : List BrokerProvider)
      → ((k : ℕ) → get_elem? all (i + k) ≡ get_elem? ps k)
      → Routes (routable_from i ps)
  unfolding routable_from
  routable_from-Routes i [] same = tt
  routable_from-Routes i (p ∷ ps) same =
      let rest =
        routable_from-Routes (i + 1) ps
          (λ k. subst (λ n. get_elem? all n ≡ get_elem? ps k) (omega arith) (same (suc k))) in
      elim (Bool-cases (not p.draining && ltb 0 p.weight)) [
        | inl takes ↦ rw takes (
          record {
            provider = p;
            there = subst (λ n. get_elem? all n ≡ some p) (omega arith) (same 0);
            not_draining = ground arith;
            weighted = ground arith;
          },
          rest,
        )
        | inr blocked ↦ rw blocked rest
      ]

  abbrev BestRoutes : Best → Type 0
  BestRoutes none = Unit {0}
  BestRoutes (some (i, id, c)) = IsRoutable all i

  better-BestRoutes :
      (i : ℕ) (id : String) (c : ℤ) (best : Best)
      → IsRoutable all i
      → BestRoutes best
      → BestRoutes (better i id c best)
  unfolding better
  better-BestRoutes i id c none h b = h
  better-BestRoutes i id c (some (j, best_id, best)) h b = elim (Bool-cases (ltb_ℤ best c)) [
    | inl more ↦ rw more h
    | inr no_more ↦ rw no_more b
  ]

  raise_all-BestRoutes :
      (ps : List (ℕ × BrokerProvider)) (m : List (String × ℤ)) (best : Best)
      → Routes ps
      → BestRoutes best
      → BestRoutes (raise_all ps m best).1
  unfolding raise_all
  raise_all-BestRoutes [] m best h b = b
  raise_all-BestRoutes ((i, p) ∷ ps) m best h b =
      raise_all-BestRoutes ps _ _ h.1 (better-BestRoutes i p.provider_id _ best h.0 b)

  least_of-Routes :
      (e : ℕ × BrokerProvider) (ps : List (ℕ × BrokerProvider))
      → IsRoutable all e.0
      → Routes ps
      → IsRoutable all (least_of e ps)
  unfolding least_of
  least_of-Routes (i, p) [] h hs = h
  least_of-Routes (i, p) ((j, r) ∷ ps) h hs = elim (Bool-cases (ltb r.in_flight p.in_flight)) [
    | inl less ↦ rw less (least_of-Routes (j, r) ps hs.0 hs.1)
    | inr no_less ↦ rw no_less (least_of-Routes (i, p) ps h hs.1)
  ]

  -- The choice among a list: a routable provider, or none as the list is empty.
  abbrev pub Chooses : List (ℕ × BrokerProvider) → Option ℕ → Type 0
  Chooses ps none = ps ≡ []
  Chooses ps (some i) = IsRoutable all i

  settle_winner-Chooses :
      (total : ℕ) (ps : List (ℕ × BrokerProvider)) (m : List (String × ℤ)) (best : Best)
      → best ≢ none
      → BestRoutes best
      → Chooses ps (settle_winner total (m, best)).1
  unfolding settle_winner
  settle_winner-Chooses total ps m none n b = absurd (n refl)
  settle_winner-Chooses total ps m (some (i, id, c)) n b = b

  select_round_robin-Chooses :
      (ps : List (ℕ × BrokerProvider)) (m : List (String × ℤ))
      → Routes ps
      → (total_weight ps ≡ 0 → ps ≡ [])
      → Chooses ps (select_round_robin ps m).1
  unfolding select_round_robin raise_all
  select_round_robin-Chooses [] m h w = refl
  select_round_robin-Chooses ((i, p) ∷ ps) m h w =
      elim (Bool-cases (total_weight ((i, p) ∷ ps) == 0)) [
        | inl weightless ↦ rw weightless (w (ground arith))
        | inr weighted ↦ rw weighted (
            settle_winner-Chooses (total_weight ((i, p) ∷ ps)) ((i, p) ∷ ps) _ _
              (raise_all-some ps _ _ (better-some i p.provider_id _ none))
              (raise_all-BestRoutes ((i, p) ∷ ps) m none h tt))
      ]

  select_by-Chooses :
      (policy : LoadBalancePolicy) (ps : List (ℕ × BrokerProvider)) (m : List (String × ℤ))
      → Routes ps
      → (total_weight ps ≡ 0 → ps ≡ [])
      → Chooses ps (select_by policy ps m).1
  unfolding select_by least_loaded_index
  select_by-Chooses round_robin ps m h w = select_round_robin-Chooses ps m h w
  select_by-Chooses least_loaded [] m h w = refl
  select_by-Chooses least_loaded (p ∷ ps) m h w = least_of-Routes p ps h.0 h.1

routable_from-weightless :
    (i : ℕ) (ps : List BrokerProvider)
    → total_weight (routable_from i ps) ≡ 0
    → routable_from i ps ≡ []
unfolding routable_from total_weight
routable_from-weightless i [] h = refl
routable_from-weightless i (p ∷ ps) h = elim (Bool-cases (not p.draining && ltb 0 p.weight)) [
  | inl takes ↦ let e = (rw takes at h) in absurd (ground arith)
  | inr blocked ↦ rw blocked (routable_from-weightless (i + 1) ps (rw blocked at h))
]

-- A provider that takes no calls.
abbrev pub Idles : BrokerProvider → Type 0
Idles p = (p.draining ≡ true) ⊎ (p.weight ≡ 0)

routable_from-Idles : (i : ℕ) (ps : List BrokerProvider) → routable_from i ps ≡ [] → All Idles ps
unfolding routable_from
routable_from-Idles i [] h = tt
routable_from-Idles i (p ∷ ps) h = elim (Bool-cases (not p.draining && ltb 0 p.weight)) [
  | inl takes ↦ let e = (rw takes at h) in absurd (cc e)
  | inr blocked ↦ (ground arith, routable_from-Idles (i + 1) ps (rw blocked at h))
]

-- A call of a broker with these providers is refused as all of them idle, or goes to one that is routable.
abbrev pub Serves : List BrokerProvider → Option ℕ → Type 0
Serves ps none = All Idles ps
Serves ps (some i) = IsRoutable ps i

Chooses-Serves :
    (ps : List BrokerProvider) (o : Option ℕ) → Chooses ps (routable_from 0 ps) o → Serves ps o
Chooses-Serves ps none h = routable_from-Idles 0 ps h
Chooses-Serves ps (some i) h = h

-- Under either policy a call is refused only if every registered provider is draining or has weight 0;
-- else it goes to a provider that is registered, is not draining and has a weight above 0.
pub select-Serves : (b : ServiceBroker) → Serves b.providers (select b).1
unfolding select routable_indices
select-Serves b = Chooses-Serves b.providers _ (
    select_by-Chooses b.providers b.policy (routable_from 0 b.providers) b.round_robin_current
      (routable_from-Routes b.providers 0 b.providers
        (λ k. ap (get_elem? b.providers) (omega arith)))
      (routable_from-weightless 0 b.providers))
