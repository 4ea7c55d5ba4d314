-- ===== src/Lib.antt =====
-- agentplug: a model of the host's scheduling of plugin calls and of the stores that it keeps, and what
-- the model shows of them.
--
-- The host (crates/agentplug-host) runs the verbs of plugins for several agents at once. Before a call
-- reaches a plugin it passes gates (Verbs to ExecPool below); the host keeps the results of finished tasks,
-- the recordings of browser sessions and the leases of browsers, and it ends the processes of a task. The daemon
-- (crates/agentplug-runner) guards a project's store against other daemons. The parts are modelled from
-- crates/agentplug-host/src/registry.rs and other files of the two crates:
--
--   Verbs      The tables of verbs, the cost class of a dispatch (`cost_class_for_dispatch`), the serial
--              lane that it queues on (`serial_lane_for_dispatch`) and the deadline of the call
--              (`deadline_secs_for_call`). A body is text; `parse` stands for serde_json's parser, which
--              is a parameter, and Verbs/Json has the values it answers with.
--   Pool       `SharedPluginPool`: the limits of its bands (Limits), the holders that count against them
--              (Holders: `register_holder`, `release_holder`), the records of waits and admissions (Records),
--              admission with its wait (Admission:
--              `admit_verb_within_lane`, `admit_blocking_within`, `release_over_age_admission_hold`,
--              `release_admission_for_thread`, the guards' drops) and the tickets by which waiting threads
--              get a slot (Tickets: `ClassTicketQueue`, `acquire_slot_until`), and the instances in the slots
--              and their swap for new bytes (Swap: `request_store_swap`, `evict_if_swap_pending`).
--   Lanes      `GmFairnessGuard`: the queue of a lane (Queue: `lane_admissible`, `lane_queue_depth`, the
--              places that requests take), the owners of all lanes (Owners: `acquire`, `acquire_within`,
--              `still_owns`, `drop`, `requeue_lane_claimer_front`), the sweeps that free lanes (Sweep:
--              `release_abandoned_lane_owners`, `release_dead_lane_owners`) and the status replies (Reports).
--   ToolQueue  `ToolDispatchGuard`: the ticket queue of one tool in one project, its time-out and its drop.
--   Broker     The choice among the providers of a service: `select` by weighted round robin or by load,
--              and in Routes the map of services with `route`, the leases' drop, `shift_traffic`,
--              `unregister_provider` and `reap_drained`.
--   ExecPool   crates/agentplug-host/src/exec_pool.rs: the gate through which calls get an execution worker
--              (`acquire`, the drop of a lease).
--   TaskResults  crates/agentplug-host/src/task_results.rs: the directory of the results of finished tasks,
--              with `save` in Saving and `output` and `remove` in Reading. The files are a map that the calls
--              of the file system read and change without failing; serde_json's printer and parsers and
--              `from_utf8_lossy` are parameters.
--   ProcessTree  crates/agentplug-host/src/process_tree.rs: the walk from a process to those below it
--              (`descendants_root_first`); its fuel is one turn more than the map of parents has entries.
--   Recorder   crates/agentplug-host/src/action_recorder.rs: the recordings of the sessions (`start`, `stop`,
--              `record_event` in Incoming, `events` and `frame` in Queries) and in Sanitize what is taken out of
--              URLs and bodies. serde_json's parser and printer and the printed event are parameters.
--   BrowserLease  crates/agentplug-host/src/browser_lease.rs: the lease on a project's browser. Its holder stands
--              in the file owner.json (`read_holder`, `write_holder`), which all processes share. Heartbeat has the
--              wait tickets and `refresh_heartbeat`, Claim the loop of `claim_session`, the eviction of a
--              stale holder and the releases, Browsers the probe, the adoption and the closing of a browser,
--              Sessions `acquire_with`, `reconnect_session`, `release` and `release_owned`, Resets
--              `reset_session`, Housekeeping the timer's sweep and `shutdown_shared_browsers`. A root is what
--              `identity_root` answers. What `open_browser` and `refuse_foreign_profile` answer, the probes of
--              ports and processes and serde_json's functions are parameters; `close_browser`, `kill_tree` and
--              `reap_stale_browsers` leave an effect in a list.
--   StoreLock  `settle_store_lock`, `reclaim_store_lock` and `StoreOwnerRecord` of
--              crates/agentplug-runner/src/daemon/claim_dispatch.rs: the lock on a project's store between
--              daemons. The directory gm.db.lock is there or not, and the marker beside it is kept as the
--              numbers of its lines. What other processes do between the steps of a reclaim, and whether its moves
--              succeed, is an `Interference`.
--   Base       Names shared by all: tests, lists, maps with keys, integers, bytes.
--
-- A record of the source is a record here with the same field names, an enum a data type. Global maps
-- are fields of a `World` that each operation takes and gives back. A map is a list of pairs and a set's
-- or map's order of iteration is the order of that list. A critical section is one function; the `Step`
-- types of Pool/Admission/Reach, Pool/Tickets/Progress, Pool/Swap/Threads, ToolQueue/Exclusion,
-- ExecPool/Order, StoreLock/Owners and Recorder/Active let the threads take their sections in any order.
-- A loop that waits is a function on a list of rounds, one for each time that it wakes: a round says what other threads
-- did meanwhile and what the clock reads, so the list bounds nothing but how far the wait is followed,
-- and the outcome `still_waiting`, `waiting` or `queued` says that the rounds ran out. Every other loop is
-- structural but two: `skip_loop` has as much fuel as the list of abandoned tickets has entries, each of
-- its turns taking one entry, and the walk of ProcessTree has the fuel that is said above.
--
-- Times are milliseconds of one clock, as numbers; the readings of the clock in one critical section are
-- one number. Threads are numbers, paths are lists of code points, tasks and verbs are strings, the
-- texts of recordings and task results are their UTF-8 bytes. Counters that only count up (tickets,
-- tokens, holder ids) are numbers without bound, where the source has u64; the calls in flight of a
-- provider wrap around at 2^64. A `print_event` stands for the text of an event as `event_to_json` makes
-- it. The hash of a body in a claim's identity is a parameter.
--
-- Not modelled: failing calls of the file system, the texts of refusals and log lines, poisoned locks
-- (the source recovers from them), condition variables beyond the rounds, the wasm runtime, the loading
-- and idle eviction of plugins, what a lease makes of a remote's name (`identity_root`),
-- its status reply and the sweep of untracked browsers, the spool's claims of requests, and the other files of the host and the daemon,
-- which are processes, files, sockets and browsers.
pub mod Base
pub mod BrowserLease
pub mod Verbs
pub mod Pool
pub mod Lanes
pub mod ToolQueue
pub mod Broker
pub mod Recorder
pub mod ExecPool
pub mod StoreLock
pub mod TaskResults
pub mod ProcessTree
