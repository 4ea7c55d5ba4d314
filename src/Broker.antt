-- ===== src/Broker.antt =====
-- The routing of a service's calls to its providers: crates/agentplug-host/src/broker.rs. Weights are
-- u32 and at most 100, counters of calls are u64 and wrap around.
pub mod Fairness
pub mod Selection
pub mod Routes
mod Examples
use agentplug.Base.{
  ℕ, suc, ◌+◌, ◌-◌, ◌*◌, ◌/◌, ◌%◌, ◌^◌, min, ◌==◌, ltb, leb, Bool, true, false, not, ◌&&◌, ◌||◌,
  List, [], ◌∷◌, ◌++◌, map, Option, none, some, String, str_eq, if◌then◌else◌, length, all, any,
  keep, get_elem?,
}
use agentplug.Base.Maps.{string_key, lookup, insert, remove, put}
use agentplug.Base.Ints.{ℤ, pos, ◌+ℤ◌, ◌-ℤ◌, ltb_ℤ}

pub data LoadBalancePolicy : Type 0 where
  round_robin least_loaded : LoadBalancePolicy

pub record BrokerProvider : Type 0 where
  pub provider_id : String
  pub weight : ℕ
  pub draining : Bool
  pub in_flight : ℕ
  pub total_dispatched : ℕ

pub new_provider : String → ℕ → BrokerProvider
new_provider provider_id weight = record {
  provider_id = provider_id;
  weight = weight;
  draining = false;
  in_flight = 0;
  total_dispatched = 0;
}

pub record ServiceBroker : Type 0 where
  pub policy : LoadBalancePolicy
  pub providers : List BrokerProvider
  pub round_robin_current : List (String × ℤ)

pub new_broker : LoadBalancePolicy → ServiceBroker
new_broker policy = record { policy = policy; providers = []; round_robin_current = [] }

-- The providers that a call may go to, each with its index.
routable_from : ℕ → List BrokerProvider → List (ℕ × BrokerProvider)
routable_from i [] = []
routable_from i (p ∷ ps) =
    if not p.draining && ltb 0 p.weight
    then (i, p) ∷ routable_from (i + 1) ps
    else routable_from (i + 1) ps

pub routable_indices : List BrokerProvider → List (ℕ × BrokerProvider)
unfolding routable_from
routable_indices ps = routable_from 0 ps

pub total_weight : List (ℕ × BrokerProvider) → ℕ
total_weight [] = 0
total_weight ((i, p) ∷ ps) = p.weight + total_weight ps

-- `entry(..).or_insert(0)`
abbrev pub or_zero : Option ℤ → ℤ
or_zero none = pos 0
or_zero (some c) = c

-- The best provider so far, with its index and its current.
abbrev pub Best : Type 0
Best = Option (ℕ × String × ℤ)

pub better : ℕ → String → ℤ → Best → Best
better i id c none = some (i, id, c)
better i id c (some (j, best_id, best)) =
    if ltb_ℤ best c then some (i, id, c) else some (j, best_id, best)

-- The `for` over the routable providers: each current grows by its weight.
pub raise_all : List (ℕ × BrokerProvider) → List (String × ℤ) → Best → List (String × ℤ) × Best
unfolding better
raise_all [] currents best = (currents, best)
raise_all ((i, p) ∷ ps) currents best =
    let c = or_zero (lookup p.provider_id currents) +ℤ pos p.weight in
    raise_all ps (insert p.provider_id c currents) (better i p.provider_id c best)

lowered : ℕ → String → List (String × ℤ) → Option ℤ → List (String × ℤ)
lowered total id currents none = currents
lowered total id currents (some c) = insert id (c -ℤ pos total) currents

-- The winner's current falls by the total weight.
settle_winner : ℕ → List (String × ℤ) × Best → List (String × ℤ) × Option ℕ
unfolding lowered
settle_winner total (currents, none) = (currents, none)
settle_winner total (currents, some (i, id, c)) =
    (lowered total id currents (lookup id currents), some i)

-- `min_by_key`: the first of those with the fewest calls in flight.
least_of : ℕ × BrokerProvider → List (ℕ × BrokerProvider) → ℕ
least_of (i, p) [] = i
least_of (i, p) ((j, r) ∷ ps) = least_of (if ltb r.in_flight p.in_flight then (j, r) else (i, p)) ps

least_loaded_index : List (ℕ × BrokerProvider) → Option ℕ
unfolding least_of
least_loaded_index [] = none
least_loaded_index (p ∷ ps) = some (least_of p ps)

-- The arm of `select` for `RoundRobin`.
pub select_round_robin :
    List (ℕ × BrokerProvider) → List (String × ℤ) → List (String × ℤ) × Option ℕ
unfolding raise_all settle_winner total_weight
select_round_robin [] currents = (currents, none)
select_round_robin (p ∷ ps) currents =
    if total_weight (p ∷ ps) == 0
    then (currents, none)
    else settle_winner (total_weight (p ∷ ps)) (raise_all (p ∷ ps) currents none)

select_by :
    LoadBalancePolicy → List (ℕ × BrokerProvider) → List (String × ℤ) → List (String × ℤ) × Option ℕ
unfolding select_round_robin least_loaded_index
select_by round_robin routable currents = select_round_robin routable currents
select_by least_loaded routable currents = (currents, least_loaded_index routable)

pub select : ServiceBroker → ServiceBroker × Option ℕ
unfolding select_by routable_indices
select b =
    let (currents, index) =
      select_by b.policy (routable_indices b.providers) b.round_robin_current in
    (record b { round_robin_current = currents }, index)
