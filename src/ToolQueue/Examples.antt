-- ===== src/ToolQueue/Examples.antt =====
-- Concrete queues of one tool of crates/agentplug-host/src/registry.rs.
use agentplug.Base.{◌≤◌, ◌≡◌, refl, true, false, [], ◌∷◌, none, some, arith}
use agentplug.Base.Maps.{Text, text_key, lookup}
use agentplug.ToolQueue.{
  ToolQueue, enter, serve, give_up, World, Call, panicked, acquire_loop, time_out,
}
use agentplug.ToolQueue.Exclusion.{Line, Reach, start, later, arrives, Reach-exclusive}
use agentplug.ToolQueue.Stranded.{same, give_up_strands, give_up_breaks_exclusion, time_out_panics}

abbrev one_waits : Line
one_waits = record {
  entry = some (record { next_ticket = 1; now_serving = 0; active = false });
  waits = 0 ∷ [];
  guards = 0;
}

abbrev two_wait : Line
two_wait = record {
  entry = some (record { next_ticket = 2; now_serving = 0; active = false });
  waits = 1 ∷ 0 ∷ [];
  guards = 0;
}

two_wait-Reach : Reach two_wait
unfolding enter
two_wait-Reach = later (later start arrives) arrives

Reach-exclusive_example : two_wait.guards ≤ 1
Reach-exclusive_example = Reach-exclusive {l = two_wait} two_wait-Reach

-- Ticket 0 is served, and 1, 2 and 3 wait.
abbrev one_runs : ToolQueue
one_runs = record { next_ticket = 4; now_serving = 1; active = true }

give_up_strands_example :
    serve (record { next_ticket = 4; now_serving = 3; active = true }) 1 ≡ none
unfolding give_up
give_up_strands_example = give_up_strands one_runs {ticket = 2} {t = 1} (omega arith) refl (same _)

give_up_breaks_exclusion_example :
    (give_up one_runs 3 ≡ none)
    × ((s : ToolQueue) × (serve (enter (give_up one_runs 3)).1 (enter (give_up one_runs 3)).0
          ≡ some s)
        × (s.active ≡ true))
give_up_breaks_exclusion_example = give_up_breaks_exclusion one_runs 3 refl refl (omega arith)

abbrev shell : Text
shell = 115 ∷ 104 ∷ []

abbrev busy : World
busy = record { inflight = (shell, one_runs) ∷ []; holders = [] }

abbrev second_call : Call
second_call = record {
  root = shell;
  plugin = "sh";
  verb = "run";
  body = "{}";
  task = "b";
  start = 0;
  max_wait = 900;
}

time_out_panics_example :
    (acquire_loop second_call shell 1
      (record { before = λ _. (time_out busy shell 3 500).0; now = 600; timed_out = none } ∷ [])
      busy).1
    ≡ panicked
unfolding lookup
time_out_panics_example =
    time_out_panics busy shell one_runs 3 500 second_call 1 600 none [] busy refl refl (omega arith)
