-- ===== src/Verbs/Deadlines.antt =====
-- Call deadlines of crates/agentplug-host/src/registry.rs, in seconds. `serde_json::from_str(..).ok()`
-- is the parameter `parse`.
use text.Mathlib.Text.{find?}
use agentplug.Base.{
  ℕ, ◌≤◌, ◌*◌, ◌+◌, ◌-◌, ◌/◌, min, ltb, ◌≡◌, true, ◌||◌, Option, none, some, String, str_eq,
  if◌then◌else◌, arith,
}
use agentplug.Verbs.Json.{Value, get, as_u64}

abbrev epoch_tick_interval_ms : ℕ
epoch_tick_interval_ms = 1000

-- `(secs * 1000).div_ceil(EPOCH_TICK_INTERVAL_MS)`
epoch_ticks_for_seconds : ℕ → ℕ
epoch_ticks_for_seconds secs = (secs * 1000 + epoch_tick_interval_ms - 1) / epoch_tick_interval_ms

abbrev dispatch_call_deadline : ℕ
dispatch_call_deadline = 120

abbrev bert_dispatch_call_deadline : ℕ
bert_dispatch_call_deadline = 1200

abbrev git_fetch_call_deadline : ℕ
git_fetch_call_deadline = 360

abbrev git_fetch_call_deadline_min : ℕ
git_fetch_call_deadline_min = 120

abbrev git_fetch_call_deadline_max : ℕ
git_fetch_call_deadline_max = 600

abbrev caller_supplied_deadline_ceiling : ℕ
caller_supplied_deadline_ceiling = 3600

-- `x.clamp(lo, hi)`
abbrev clamp : ℕ → ℕ → ℕ → ℕ
clamp x lo hi = if ltb x lo then lo else if ltb hi x then hi else x

abbrev or_default : Option ℕ → ℕ → ℕ
or_default none d = d
or_default (some n) d = n

-- `v.get(key).and_then(|d| d.as_u64())` on a body that parsed, and `None` on one that did not.
u64_member : String → Option Value → Option ℕ
u64_member key none = none
u64_member key (some v) = elim (get key v) [ none ↦ none | some d ↦ as_u64 d ]

module _ (parse : String → Option Value) where
  git_fetch_deadline_secs : String → ℕ
  git_fetch_deadline_secs body = elim (u64_member "fetch_timeout_seconds" (parse body)) [
    | none ↦ git_fetch_call_deadline
    | some s ↦ clamp s git_fetch_call_deadline_min git_fetch_call_deadline_max
  ]

  dispatch_call_deadline_secs : String → ℕ
  dispatch_call_deadline_secs plugin_name =
      if str_eq plugin_name "bert" then bert_dispatch_call_deadline else dispatch_call_deadline

  -- `.filter(|s| *s > 0).map(|s| s.min(..))`
  capped : Option ℕ → Option ℕ
  capped none = none
  capped (some s) = if ltb 0 s then some (min s caller_supplied_deadline_ceiling) else none

  caller_supplied_deadline_secs : String → Option ℕ
  unfolding capped
  caller_supplied_deadline_secs body = elim (find? body "deadline_secs") [
    | none ↦ none
    | some _ ↦ capped (u64_member "deadline_secs" (parse body))
  ]

  pub deadline_secs_for_call : String → String → String → ℕ
  unfolding git_fetch_deadline_secs dispatch_call_deadline_secs caller_supplied_deadline_secs
  deadline_secs_for_call plugin_name verb body = or_default (caller_supplied_deadline_secs body) (
      if str_eq verb "git_fetch" || str_eq verb "git_push"
      then git_fetch_deadline_secs body
      else dispatch_call_deadline_secs plugin_name)

  -- Every call has a deadline: at least one second and at most an hour, whatever the body asks for.
  pub deadline_secs_for_call_bounds :
      (plugin_name verb body : String)
      → (1 ≤ deadline_secs_for_call plugin_name verb body)
        × (deadline_secs_for_call plugin_name verb body ≤ 3600)
  unfolding deadline_secs_for_call
  deadline_secs_for_call_bounds plugin_name verb body = ground arith

  -- A fetch or push whose body does not mention `deadline_secs` has between 120 and 600 seconds.
  pub git_fetch_deadline_bounds :
      (plugin_name verb body : String)
      → (str_eq verb "git_fetch" || str_eq verb "git_push") ≡ true
      → find? body "deadline_secs" ≡ none
      → (120 ≤ deadline_secs_for_call plugin_name verb body)
        × (deadline_secs_for_call plugin_name verb body ≤ 600)
  unfolding deadline_secs_for_call
  git_fetch_deadline_bounds plugin_name verb body v quiet = ground arith

-- The epoch deadline of a call in ticks is its deadline in seconds.
epoch_ticks_lem : (secs : ℕ) → epoch_ticks_for_seconds secs ≡ secs
unfolding epoch_ticks_for_seconds
epoch_ticks_lem secs = omega arith
