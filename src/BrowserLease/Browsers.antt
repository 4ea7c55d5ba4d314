-- ===== src/BrowserLease/Browsers.antt =====
-- The shared browser of a project: its probe, its record on the disk, its adoption from there and its closing,
-- with `browser_running`, `adopt_idle_browser`, `adopt_kept_browsers` and `drop_shared_browser` of
-- crates/agentplug-host/src/browser_lease.rs. A root is what `identity_root` answers.
pub mod Probing
use agentplug.Base.{
  ℕ, ◌+◌, ◌-◌, ◌%◌, ◌^◌, ◌==◌, leb, Bool, true, false, not, ◌&&◌, ◌||◌, List, [], ◌∷◌, ◌++◌, Option,
  none, some, String, str_eq, if◌then◌else◌,
}
use agentplug.Base.Maps.{Text, text_key, text_eq, string_key, lookup, insert, remove}
use agentplug.BrowserLease.Heartbeat.{has_waiter}
use agentplug.BrowserLease.{
  LeaseHolder, SharedBrowser, BrowserRecord, close, World, Host, is_some, read_holder,
}
use agentplug.BrowserLease.Claim.{release_claim, publish_holder}

-- What probes of ports and processes answer with. `browser_pid` looks a process up by its profile.
pub record Probes : Type 0 where
  pub endpoint_ready : ℕ → Bool
  pub process_exists : ℕ → Bool
  pub browser_pid : Text → Option ℕ

abbrev pub same_bool : Bool → Bool → Bool
same_bool true b = b
same_bool false b = not b

unfoldable pub resolved : Probes → SharedBrowser → Option ℕ → Bool × SharedBrowser
resolved probes browser none = (false, browser)
resolved probes browser (some pid) =
    if probes.process_exists pid then (true, record browser { pid = pid }) else (false, browser)

unfoldable pub browser_running : Probes → SharedBrowser → Bool × SharedBrowser
unfolding resolved
browser_running probes browser =
    if browser.attached
    then (probes.endpoint_ready browser.port, browser)
    else if probes.endpoint_ready browser.port || probes.process_exists browser.pid
    then (true, browser)
    else resolved probes browser (probes.browser_pid browser.profile)

abbrev pub or_else {ℓ} : {A : Type ℓ} → Option A → A → A
or_else none a = a
or_else (some b) a = b

-- The browser that a record tells of, with its fields in the range of their types.
adopted_browser : Text → BrowserRecord → SharedBrowser
adopted_browser own_profile r = record {
  child = none;
  pid = r.pid % 2 ^ 32;
  port = r.port % 2 ^ 16;
  profile = or_else r.profile own_profile;
  headful = r.headful;
  active = [];
  idle_since_ms = some r.idle_since_ms;
  attached = r.attached;
}

adoption_alive : Probes → SharedBrowser → Bool
adoption_alive probes b =
    if b.attached
    then probes.endpoint_ready b.port
    else probes.process_exists b.pid && probes.endpoint_ready b.port

module _ {Doc : Type 0} where
  -- The browser's process is ended by a call outside of the model, which an attached browser never gets.
  unfoldable pub close_browser : SharedBrowser → World Doc → World Doc
  close_browser browser w =
      if browser.attached then w else record w { effects = w.effects ++ close browser ∷ [] }

  unfoldable pub write_browser_record : Text → SharedBrowser → World Doc → World Doc
  write_browser_record root browser w = elim browser.idle_since_ms [
    | none ↦ w
    | some since ↦ record w {
      records =
          insert root
            (record {
              port = browser.port;
              pid = browser.pid;
              idle_since_ms = since;
              headful = browser.headful;
              profile = some browser.profile;
              attached = browser.attached;
            })
            w.records;
    }
  ]

  abbrev pub forget_browser_record : Text → World Doc → World Doc
  forget_browser_record root w = record w { records = remove root w.records }

  drop_found : Text → Option SharedBrowser → World Doc → World Doc × Option ℕ
  unfolding close_browser
  drop_found root none w = (w, none)
  drop_found root (some browser) w = (
    close_browser browser (record w { browsers = remove root w.browsers }),
    if browser.attached then none else some browser.pid,
  )

  -- Also the pid of the browser that was closed.
  unfoldable pub drop_shared_browser : Text → World Doc → World Doc × Option ℕ
  unfolding drop_found
  drop_shared_browser root w =
      let (dropped, closed) = drop_found root (lookup root w.browsers) w in
      (forget_browser_record root dropped, closed)

module _ {Doc : Type 0} (host : Host Doc) (probes : Probes) where
  adopt_record :
      Text
      → Bool
      → Text
      → Text
      → ℕ
      → Option BrowserRecord
      → World Doc
      → World Doc × Option SharedBrowser
  unfolding adopted_browser adoption_alive close_browser
  adopt_record root headful own_profile wanted now none w = (w, none)
  adopt_record root headful own_profile wanted now (some r) w =
      let b = adopted_browser own_profile r in
      let forgotten = forget_browser_record root w in
      let closed = forget_browser_record root (close_browser b w) in
      if b.port == 0 || (b.pid == 0 && not b.attached) || not (same_bool b.headful headful)
      then (forgotten, none)
      else if not (adoption_alive probes b)
      then (forgotten, none)
      else if not (text_eq b.profile wanted)
      then (closed, none)
      else if leb host.idle_window_ms (now - r.idle_since_ms)
      then (closed, none)
      else (w, some b)

  unfoldable pub adopt_idle_browser :
      Text → Bool → Text → Text → ℕ → World Doc → World Doc × Option SharedBrowser
  unfolding adopt_record
  adopt_idle_browser root headful own_profile wanted now w =
      adopt_record root headful own_profile wanted now (lookup root w.records) w

module _ {Doc : Type 0} where
  unfoldable pub put_adopted : Text → Option SharedBrowser → World Doc → World Doc
  put_adopted root none w = w
  put_adopted root (some browser) w = record w { browsers = insert root browser w.browsers }

-- `own_profile` is what `profile_dir` answers for a root.
module _ {Doc : Type 0} (host : Host Doc) (probes : Probes) (own_profile : Text → Text)
    (now : ℕ) where
  adopt_kept : Text → Option BrowserRecord → World Doc → World Doc
  unfolding put_adopted adopt_record
  adopt_kept root none w = w
  adopt_kept root (some r) w =
      let own = own_profile root in
      let (seen, adopted) =
        adopt_record host probes root r.headful own (or_else r.profile own) now (some r) w in
      put_adopted root adopted seen

  unfoldable pub adopt_kept_browsers : List Text → World Doc → World Doc
  unfolding adopt_kept
  adopt_kept_browsers [] w = w
  adopt_kept_browsers (root ∷ roots) w =
      let skipped =
        is_some (lookup root w.browsers) || is_some (lookup root w.claimed) || has_waiter root w in
      adopt_kept_browsers roots (if skipped then w else adopt_kept root (lookup root w.records) w)
