-- ===== src/Verbs/Lanes.antt =====
-- Serial lanes of crates/agentplug-host/src/registry.rs: which dispatch queues behind which others.
pub mod Serial
use agentplug.Base.{
  ℕ, Bool, true, false, ◌&&◌, ◌||◌, Option, none, some, String, str_eq, if◌then◌else◌,
}
use agentplug.Verbs.Json.{Value}
use agentplug.Verbs.Cost.{DispatchCostClass, cheap, heavy, short, contains, cost_class_for_dispatch}
use agentplug.Verbs.Tables.{
  unserialized_verbs, state_read_verbs, blocking_dispatch_verbs, git_lane_verbs,
  git_network_lane_verbs, read_lane_verbs, store_lane_verbs, tree_scan_verbs,
  unserialized_store_writer_verbs, browser_lane_verbs,
}

pub is_state_read_verb : String → Bool
is_state_read_verb verb = contains state_read_verbs verb

unfoldable pub is_blocking_dispatch_verb : String → Bool
is_blocking_dispatch_verb verb = contains blocking_dispatch_verbs verb

pub dispatch_claims_store_owner : String → Bool
dispatch_claims_store_owner verb =
    contains store_lane_verbs verb || contains unserialized_store_writer_verbs verb

-- The lane names, `&'static str` in the source.
pub data Lane : Type 0 where
  git read store state browser : Lane

pub lane_name : String → Option Lane
lane_name name =
    if str_eq name "git"
    then some git
    else if str_eq name "read"
    then some read
    else if str_eq name "store"
    then some store
    else if str_eq name "state"
    then some state
    else if str_eq name "browser"
    then some browser
    else none

abbrev pub is_heavy : DispatchCostClass → Bool
is_heavy heavy = true
is_heavy other = false

-- `matches!(class, Cheap | Short)`
abbrev pub cheap_or_short : DispatchCostClass → Bool
cheap_or_short cheap = true
cheap_or_short short = true
cheap_or_short heavy = false

module _ (parse : String → Option Value) where
  tree_scan_without_indexing : String → String → Bool
  tree_scan_without_indexing verb body =
      contains tree_scan_verbs verb && cheap_or_short (cost_class_for_dispatch parse verb body)

  pub is_unserialized_dispatch : String → String → Bool
  unfolding tree_scan_without_indexing
  is_unserialized_dispatch verb body =
      contains unserialized_verbs verb || tree_scan_without_indexing verb body

  pub serial_lane_for_dispatch : String → String → Option Lane
  serial_lane_for_dispatch verb body =
      if is_unserialized_dispatch verb body
      then none
      else if contains git_lane_verbs verb
      then some git
      else if contains read_lane_verbs verb
      then some read
      else if contains store_lane_verbs verb || str_eq verb "codesearch"
      then some store
      else if contains browser_lane_verbs verb
      then some browser
      else some state

  pub dispatch_serial_lane : String → String → Option Lane
  unfolding serial_lane_for_dispatch
  dispatch_serial_lane verb body = serial_lane_for_dispatch verb body

-- 0 for the verbs that go to the network, which yield to the others.
unfoldable pub lane_yield_class : String → ℕ
lane_yield_class verb = if contains git_network_lane_verbs verb then 0 else 1
