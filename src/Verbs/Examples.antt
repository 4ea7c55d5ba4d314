-- ===== src/Verbs/Examples.antt =====
-- Concrete dispatches and deadlines of crates/agentplug-host/src/registry.rs.
use agentplug.Base.{◌≤◌, ◌≡◌, refl, false, Option, none, some, String}
use agentplug.Verbs.Json.{Value, number, object, end, field}
use agentplug.Verbs.Cost.{cheap, contains, cost_class_for_verb, cost_class_for_dispatch}
use agentplug.Verbs.Lanes.{
  Lane, git, is_blocking_dispatch_verb, is_unserialized_dispatch, dispatch_serial_lane,
}
use agentplug.Verbs.Lanes.Serial.{
  serial_lane_of_table, heavy_is_serialized, blocking_is_unserialized,
}
use agentplug.Verbs.Deadlines.{deadline_secs_for_call, deadline_secs_for_call_bounds}

-- A parser that reads no body, and one that reads a single member from each.
abbrev no_json : String → Option Value
no_json body = none

abbrev one_number : String → Option Value
one_number body = some (object (field body (number "900" (some 900)) end))

git_push_is_queued : dispatch_serial_lane no_json "git_push" "{}" ≡ some git
unfolding contains
git_push_is_queued = serial_lane_of_table no_json git "git_push" "{}" refl

heavy_is_serialized_example :
    (is_unserialized_dispatch no_json "codesearch" "{}" ≡ false)
    × (lane : Lane) × (dispatch_serial_lane no_json "codesearch" "{}" ≡ some lane)
unfolding cost_class_for_dispatch cost_class_for_verb contains
heavy_is_serialized_example = heavy_is_serialized no_json "codesearch" "{}" refl

python_is_unserialized :
    (cost_class_for_dispatch no_json "python" "{}" ≡ cheap)
    × (dispatch_serial_lane no_json "python" "{}" ≡ none)
unfolding is_blocking_dispatch_verb contains
python_is_unserialized = blocking_is_unserialized no_json "python" "{}" refl

deadline_secs_for_call_bounds_example :
    (1 ≤ deadline_secs_for_call one_number "gm" "git_fetch" "deadline_secs")
    × (deadline_secs_for_call one_number "gm" "git_fetch" "deadline_secs" ≤ 3600)
deadline_secs_for_call_bounds_example =
    deadline_secs_for_call_bounds one_number "gm" "git_fetch" "deadline_secs"
