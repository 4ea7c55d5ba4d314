-- ===== src/BrowserLease/Examples.antt =====
-- Two processes and one project's browser: concrete runs of
-- crates/agentplug-host/src/browser_lease.rs.
use agentplug.Base.{ℕ, true, false, [], ◌∷◌, none, some, ◌≡◌, refl, arith}
use agentplug.Base.Maps.{Text, text_key, string_key, lookup, insert}
use agentplug.Verbs.Json.{Value, get}
use agentplug.BrowserLease.{
  LeaseHolder, SharedBrowser, World, Host, new_holder, read_holder, write_holder, holder_live,
  claim_is_ours,
}
use agentplug.BrowserLease.Holder.{Fits}
use agentplug.BrowserLease.Heartbeat.{enter_wait}
use agentplug.BrowserLease.Heartbeat.Expiry.{beats, beats-expires}
use agentplug.BrowserLease.Claim.{
  Round, create_claim, evict_stale_holder, claim_loop, claim_session,
}
use agentplug.BrowserLease.Claim.Waiting.{watch, claim_loop-watch}
use agentplug.BrowserLease.Claim.Holding.{Holds, claim_session-Holds}
use agentplug.BrowserLease.Claim.Races.{Takes, claim_loop-takes_over, evict_stale_holder-ousts}
use agentplug.BrowserLease.Browsers.{Probes}
use agentplug.BrowserLease.Sessions.{Launch, acquire_with}
use agentplug.BrowserLease.Sessions.Outcomes.{Settled, acquire_with-Settled}
use agentplug.BrowserLease.Housekeeping.{is_leased, housekeeping, shutdown_shared_browsers}
use agentplug.BrowserLease.Housekeeping.Decisions.{Decides, housekeeping-Decides}
use agentplug.BrowserLease.Housekeeping.Leases.{housekeeping-keeps_lease}
use agentplug.BrowserLease.Housekeeping.Shutdown.{shutdown-gives_up}

abbrev root : Text
root = 47 ∷ 112 ∷ []

-- The printed text of a value is the value itself.
abbrev host : ℕ → Host Value
host pid = record {
  pid = pid;
  idle_window_ms = 300_000;
  parse = λ v. some v;
  print = λ v. v;
  decimal = λ n. "";
}

abbrev holder : LeaseHolder
holder = record {
  owner = "a";
  pid = 7;
  browser_pid = 40;
  port = 9222;
  started_at_ms = 1000;
  heartbeat_at_ms = 1000;
  ttl_ms = 120_000;
}

abbrev chrome : SharedBrowser
chrome = record {
  child = some 39;
  pid = 40;
  port = 9222;
  profile = root;
  headful = true;
  active = ("a", tt) ∷ [];
  idle_since_ms = none;
  attached = false;
}

abbrev empty : World Value
empty = record {
  owner_files = [];
  records = [];
  claimed = [];
  waiters = [];
  heartbeats = [];
  stopped = [];
  next_flag = 0;
  attended = [];
  browsers = [];
  effects = [];
}

-- Process 7 holds the lease for agent a, and attended it at 1000.
held : World Value
unfolding write_holder
held = write_holder (host 7) root holder 1000 (record empty {
  claimed = (root, tt) ∷ [];
  heartbeats = (root, 0) ∷ [];
  next_flag = 1;
  attended = (root, 1000) ∷ [];
  browsers = (root, chrome) ∷ [];
})

-- No agent uses the browser any more, since 1000.
abbrev left : World Value
left = record empty {
  browsers = (root, record chrome { active = []; idle_since_ms = some 1000 }) ∷ [];
}

holder-Fits : Fits holder
holder-Fits = record {
  pid_fits = omega arith;
  browser_pid_fits = omega arith;
  port_fits = omega arith;
  ttl_some = omega arith;
}

held_read : read_holder (host 7) root held ≡ some holder
unfolding held read_holder lookup insert get
held_read = refl

-- Refreshed at 100000, but not attended after 1000.
beats-expires_example :
    holder_live (host 7) root 120_000 241_000 (beats (host 7) root (100_000 ∷ 200_000 ∷ []) held)
    ≡ false
unfolding held lookup insert
beats-expires_example =
    beats-expires (host 7) root holder 1000 241_000 (100_000 ∷ 200_000 ∷ []) held (λ v. refl)
      holder-Fits held_read (omega arith) refl (omega arith)

abbrev turn : ℕ → Round Value
turn now = record { before = λ w. w; now = now; reaped = true }

-- Process 9 waits for the lease while process 7 keeps it.
claim_loop-watch_example :
    claim_loop (host 9) root "b" 120_000 2500 (turn 2000 ∷ turn 3000 ∷ []) held
    ≡ watch (host 9) root "b" 120_000 2500 (turn 2000 ∷ turn 3000 ∷ []) held
unfolding held read_holder holder_live lookup insert get
claim_loop-watch_example =
    claim_loop-watch (host 9) root "b" 120_000 2500 (turn 2000 ∷ turn 3000 ∷ []) held
      (refl, refl, (refl, refl, tt))

claim_loop-takes_over_example :
    Takes
      (host 9)
      root
      "b"
      200_500
      (new_holder (host 9) "b" 120_000 200_500)
      (claim_loop (host 9) root "b" 120_000 900_000 (turn 200_000 ∷ turn 200_500 ∷ []) held)
unfolding held read_holder holder_live lookup insert get
claim_loop-takes_over_example =
    claim_loop-takes_over (host 9) root "b" 120_000 900_000 (turn 200_000) (turn 200_500) [] held
      (λ v. refl) (omega arith) (omega arith) refl refl (omega arith) refl (λ u. refl)

-- Processes 8 and 9 both saw the holder of process 7 stale.
evict_stale_holder-ousts_example :
    let freed = (evict_stale_holder (host 8) root (some holder) true held).0 in
    let (taken, first) =
      create_claim (host 8) root (new_holder (host 8) "b" 120_000 200_000) 200_000 freed in
    let ousted = (evict_stale_holder (host 9) root (some holder) true taken).0 in
    let second =
      (create_claim (host 9) root (new_holder (host 9) "c" 120_000 200_001) 200_001 ousted).1 in
    (first ≡ true) × (holder_live (host 8) root 120_000 200_001 taken ≡ true) × (second ≡ true)
evict_stale_holder-ousts_example =
    evict_stale_holder-ousts (host 8) root (host 9) "b" "c" 120_000 200_000 200_001 (some holder)
      held (λ v. refl) (omega arith) (omega arith) (omega arith)

-- Agent a asks again for the lease that it has.
claim_session-Holds_example :
    (since : ℕ) × Holds
      (host 7)
      root
      "a"
      since
      holder
      (claim_session (host 7) root "a" 120_000 600_000 5000 [] held).0
unfolding held claim_session read_holder claim_is_ours lookup insert get
claim_session-Holds_example =
    claim_session-Holds (host 7) root "a" 120_000 600_000 5000 [] held holder (omega arith)
      (λ v. refl) refl

abbrev quiet : Probes
quiet = record {
  endpoint_ready = λ port. false;
  process_exists = λ pid. false;
  browser_pid = λ profile. none;
}

abbrev no_chrome : Launch
no_chrome = record {
  own_profile = root;
  profile = root;
  foreign = false;
  opened = none;
  headful = true;
}

-- Agent b finds the project free, but no Chrome opens.
acquire_with-Settled_example :
    Settled
      (host 7)
      root
      "b"
      (acquire_with (host 7) quiet root no_chrome "b" 120_000 600_000 0 (turn 500 ∷ []) 600 empty)
unfolding claim_session create_claim enter_wait read_holder claim_is_ours lookup insert
acquire_with-Settled_example =
    acquire_with-Settled (host 7) quiet root no_chrome "b" 120_000 600_000 0 (turn 500 ∷ []) 600
      empty (new_holder (host 7) "b" 120_000 500) (omega arith) (λ v. refl) refl refl

housekeeping-Decides_example :
    Decides
      (host 7)
      quiet
      500_000
      root
      left
      (lookup root (housekeeping (host 7) quiet 500_000 left).browsers)
housekeeping-Decides_example = housekeeping-Decides (host 7) quiet 500_000 root left

housekeeping-keeps_lease_example :
    (is_leased (host 7) root (housekeeping (host 7) quiet 5000 held) ≡ true)
    × (lookup root (housekeeping (host 7) quiet 5000 held).owner_files
        ≡ lookup root held.owner_files)
    × (lookup root (housekeeping (host 7) quiet 5000 held).browsers ≡ lookup root held.browsers)
unfolding held is_leased read_holder claim_is_ours lookup insert get
housekeeping-keeps_lease_example = housekeeping-keeps_lease (host 7) quiet 5000 root held refl

shutdown-gives_up_example :
    (claim_is_ours (host 7) root (shutdown_shared_browsers (host 7) 5000 held) ≡ false)
    × ((shutdown_shared_browsers (host 7) 5000 held).browsers ≡ [])
unfolding held lookup insert
shutdown-gives_up_example = shutdown-gives_up (host 7) root 5000 held refl
