-- ===== src/Broker/Examples.antt =====
-- A concrete service of crates/agentplug-host/src/broker.rs.
use agentplug.Base.{◌+◌, ◌≤◌, min, [], ◌∷◌}
use agentplug.Base.Ints.{pos}
use agentplug.Broker.{round_robin, new_provider, ServiceBroker, select}
use agentplug.Broker.Routes.{weight_of_others, shift_to}
use agentplug.Broker.Routes.Shift.{shift_to-takes}
use agentplug.Broker.Selection.{Serves, select-Serves}

abbrev two_providers : ServiceBroker
two_providers = record {
  policy = round_robin;
  providers = new_provider "old" 80 ∷ new_provider "new" 20 ∷ [];
  round_robin_current = ("old", pos 7) ∷ [];
}

select-Serves_example : Serves two_providers.providers (select two_providers).1
select-Serves_example = select-Serves two_providers

shift_to-takes_example :
    (weight_of_others 1 0 (shift_to 1 30 two_providers.providers)
      ≤ weight_of_others 1 0 two_providers.providers)
    × (weight_of_others 1 0 two_providers.providers
        ≤ weight_of_others 1 0 (shift_to 1 30 two_providers.providers) + min 30 100)
shift_to-takes_example = shift_to-takes 1 30 two_providers.providers
