-- ===== src/Broker/Routes.antt =====
-- The registered services and the operations on them: `BROKERS` of
-- crates/agentplug-host/src/broker.rs, a map from a service's key to its broker.
pub mod Shift
use agentplug.Base.{
  ℕ, ◌+◌, ◌-◌, ◌*◌, ◌/◌, ◌%◌, ◌^◌, min, ◌==◌, ltb, leb, Bool, true, false, not, ◌&&◌, ◌||◌, List,
  [], ◌∷◌, ◌++◌, map, Option, none, some, String, str_eq, if◌then◌else◌, length, any, keep,
  get_elem?, set,
}
use agentplug.Base.Maps.{string_key, lookup, insert, put}
use agentplug.Broker.{
  LoadBalancePolicy, round_robin, BrokerProvider, new_provider, ServiceBroker, new_broker, select,
}

abbrev pub Brokers : Type 0
Brokers = List (String × ServiceBroker)

abbrev pub has_provider_id : String → BrokerProvider → Bool
has_provider_id id p = str_eq p.provider_id id

or_new_broker : LoadBalancePolicy → Option ServiceBroker → ServiceBroker
or_new_broker policy none = new_broker policy
or_new_broker policy (some b) = b

-- A provider that is registered already keeps its weight.
add_provider : ServiceBroker → String → ℕ → ServiceBroker
add_provider b provider_id weight =
    if any (has_provider_id provider_id) b.providers
    then b
    else record b { providers = b.providers ++ new_provider provider_id (min weight 100) ∷ [] }

pub register_provider_with_weight : Brokers → String → String → LoadBalancePolicy → ℕ → Brokers
unfolding or_new_broker add_provider
register_provider_with_weight brokers service_key provider_id policy weight =
    insert service_key
      (add_provider (or_new_broker policy (lookup service_key brokers)) provider_id weight) brokers

pub register_provider : Brokers → String → String → LoadBalancePolicy → Brokers
unfolding register_provider_with_weight
register_provider brokers service_key provider_id policy =
    register_provider_with_weight brokers service_key provider_id policy 100

pub begin_rolling_update : Brokers → String → String → Brokers
unfolding register_provider_with_weight
begin_rolling_update brokers service_key incoming =
    register_provider_with_weight brokers service_key incoming round_robin 0

-- `position(..)`, the provider there and the list without it.
take_provider : String → List BrokerProvider → Option (BrokerProvider × List BrokerProvider)
take_provider id [] = none
take_provider id (p ∷ ps) =
    if str_eq p.provider_id id
    then some (p, ps)
    else elim (take_provider id ps) [ none ↦ none | some (q, rest) ↦ some (q, p ∷ rest) ]

unless_no_provider : ServiceBroker → List BrokerProvider → Option ServiceBroker
unless_no_provider b [] = none
unless_no_provider b (p ∷ ps) = some (record b { providers = p ∷ ps })

unregister_taken :
    Brokers
    → String
    → ServiceBroker
    → Option (BrokerProvider × List BrokerProvider)
    → Brokers × Bool
unfolding unless_no_provider
unregister_taken brokers service_key b none = (brokers, true)
unregister_taken brokers service_key b (some (p, rest)) =
    if ltb 0 p.in_flight
    then (brokers, false)
    else (put service_key (unless_no_provider b rest) brokers, true)

unregister_from : Brokers → String → String → Option ServiceBroker → Brokers × Bool
unfolding unregister_taken take_provider
unregister_from brokers service_key provider_id none = (brokers, true)
unregister_from brokers service_key provider_id (some b) =
    unregister_taken brokers service_key b (take_provider provider_id b.providers)

-- The answer is whether the provider is gone.
pub unregister_provider : Brokers → String → String → Brokers × Bool
unfolding unregister_from
unregister_provider brokers service_key provider_id =
    unregister_from brokers service_key provider_id (lookup service_key brokers)

pub set_policy : Brokers → String → LoadBalancePolicy → Brokers
set_policy brokers service_key policy = elim (lookup service_key brokers) [
  | none ↦ brokers
  | some b ↦ insert service_key (record b { policy = policy }) brokers
]

pub record RouteLease : Type 0 where
  pub service_key : String
  pub provider_id : String

-- `fetch_add(1)` and `fetch_sub(1)` on a u64.
abbrev count_up : ℕ → ℕ
count_up n = (n + 1) % 2 ^ 64

abbrev count_down : ℕ → ℕ
count_down n = (n + (2 ^ 64 - 1)) % 2 ^ 64

-- The first provider with the id has one call less in flight.
land : String → List BrokerProvider → List BrokerProvider
land id [] = []
land id (p ∷ ps) =
    if str_eq p.provider_id id
    then record p { in_flight = count_down p.in_flight } ∷ ps
    else p ∷ land id ps

-- `drop` of a lease.
pub drop_lease : Brokers → RouteLease → Brokers
unfolding land
drop_lease brokers lease = elim (lookup lease.service_key brokers) [
  | none ↦ brokers
  | some b ↦
      insert lease.service_key (record b { providers = land lease.provider_id b.providers }) brokers
]

-- The provider at an index has one call more in flight, and one more in all.
launch : BrokerProvider → BrokerProvider
launch p = record p {
  in_flight = count_up p.in_flight;
  total_dispatched = count_up p.total_dispatched;
}

routed : Brokers → String → ServiceBroker × Option ℕ → Brokers × Option RouteLease
unfolding launch
routed brokers service_key (b, none) = (insert service_key b brokers, none)
routed brokers service_key (b, some i) = elim (get_elem? b.providers i) [
  | none ↦ (insert service_key b brokers, none)
  | some p ↦ (
    insert service_key (record b { providers = set b.providers i (launch p) }) brokers,
    some (record { service_key = service_key; provider_id = p.provider_id }),
  )
]

pub route : Brokers → String → Brokers × Option RouteLease
unfolding routed
route brokers service_key = elim (lookup service_key brokers) [
  | none ↦ (brokers, none)
  | some b ↦ routed brokers service_key (select b)
]

pub record BrokerStatus : Type 0 where
  pub service_key : String
  pub policy : LoadBalancePolicy
  -- `ProviderStatus` has the fields of a provider
  pub providers : List BrokerProvider

pub status : Brokers → String → Option BrokerStatus
status brokers service_key = elim (lookup service_key brokers) [
  | none ↦ none
  | some b ↦ some (record { service_key = service_key; policy = b.policy; providers = b.providers })
]

index_of : String → ℕ → List BrokerProvider → Option ℕ
index_of id i [] = none
index_of id i (p ∷ ps) = if str_eq p.provider_id id then some i else index_of id (i + 1) ps

-- The sum of the weights of the providers at other indices than the target; `i` is the first index.
pub weight_of_others : ℕ → ℕ → List BrokerProvider → ℕ
weight_of_others target i [] = 0
weight_of_others target i (p ∷ ps) =
    (if i == target then 0 else p.weight) + weight_of_others target (i + 1) ps

-- What a provider gives up: the last of the others takes what remains of the reduction.
share_of : Bool → ℕ → ℕ → ℕ → BrokerProvider → ℕ
share_of is_last reduction total remaining p =
    min (min (if is_last then remaining else reduction * p.weight / total) p.weight) remaining

give_share : ℕ → BrokerProvider → BrokerProvider
give_share share p =
    if p.weight - share == 0
    then record p { weight = 0; draining = true }
    else record p { weight = p.weight - share }

-- The `for` over the others: `left` of them are still to come.
reduce_others : ℕ → ℕ → ℕ → ℕ → ℕ → ℕ → List BrokerProvider → List BrokerProvider
unfolding give_share share_of
reduce_others target reduction total i left remaining [] = []
reduce_others target reduction total i left remaining (p ∷ ps) =
    let share = share_of (left == 1) reduction total remaining p in
    if i == target
    then p ∷ reduce_others target reduction total (i + 1) left remaining ps
    else give_share share p
      ∷ reduce_others target reduction total (i + 1) (left - 1) (remaining - share) ps

-- The target gains the whole reduction, up to a weight of 100.
gain : ℕ → BrokerProvider → BrokerProvider
gain reduction p = record p { weight = min (p.weight + reduction) 100; draining = false }

others_all_zero : ℕ → ℕ → List BrokerProvider → Bool
others_all_zero target i [] = true
others_all_zero target i (p ∷ ps) =
    (i == target || p.weight == 0) && others_all_zero target (i + 1) ps

at_full_weight : Option BrokerProvider → Bool
at_full_weight none = false
at_full_weight (some p) = leb 100 p.weight

gain_at : ℕ → ℕ → List BrokerProvider → Option BrokerProvider → List BrokerProvider
unfolding gain
gain_at target reduction ps none = ps
gain_at target reduction ps (some p) = set ps target (gain reduction p)

-- The providers after a shift to the one at index `target`.
pub shift_to : ℕ → ℕ → List BrokerProvider → List BrokerProvider
unfolding weight_of_others reduce_others gain_at
shift_to target step_percent ps =
    let total = weight_of_others target 0 ps in
    let reduction = min (min step_percent 100) total in
    let reduced =
      if ltb 0 reduction
      then reduce_others target reduction total 0 (length ps - 1) reduction ps
      else ps in
    gain_at target reduction reduced (get_elem? reduced target)

-- Whether the target has all the traffic.
pub is_shifted : ℕ → List BrokerProvider → Bool
unfolding others_all_zero at_full_weight
is_shifted target ps = others_all_zero target 0 ps && at_full_weight (get_elem? ps target)

shift_at : Brokers → String → ServiceBroker → ℕ → Option ℕ → Brokers × Bool
unfolding shift_to is_shifted
shift_at brokers service_key b step_percent none = (brokers, false)
shift_at brokers service_key b step_percent (some target) =
    let ps = shift_to target step_percent b.providers in
    (insert service_key (record b { providers = ps }) brokers, is_shifted target ps)

pub shift_traffic : Brokers → String → String → ℕ → Brokers × Bool
unfolding shift_at index_of
shift_traffic brokers service_key to_provider_id step_percent = elim (lookup service_key brokers) [
  | none ↦ (brokers, false)
  | some b ↦ shift_at brokers service_key b step_percent (index_of to_provider_id 0 b.providers)
]

is_drained : BrokerProvider → Bool
is_drained p = p.draining && p.weight == 0 && p.in_flight == 0

-- The `retain` of `reap_drained`, and the ids that it removes.
pub reap : List BrokerProvider → List BrokerProvider × List String
unfolding is_drained
reap ps = (keep (λ p. not (is_drained p)) ps, map (λ p. p.provider_id) (keep is_drained ps))

pub reap_drained : Brokers → String → Brokers × List String
unfolding reap
reap_drained brokers service_key = elim (lookup service_key brokers) [
  | none ↦ (brokers, [])
  | some b ↦
      let (kept, removed) = reap b.providers in
      (insert service_key (record b { providers = kept }) brokers, removed)
]
