-- ===== src/BrowserLease/Sessions.antt =====
-- The calls that open and end a browser's session: `acquire_with`, `release`, `release_owned` and
-- `reconnect_session` of crates/agentplug-host/src/browser_lease.rs.
mod Claims
pub mod Outcomes
pub mod Releases
use agentplug.Base.{
  ℕ, ◌+◌, Bool, true, false, not, ◌&&◌, List, [], ◌∷◌, ◌++◌, Option, none, some, String, str_eq,
  if◌then◌else◌,
}
use agentplug.Base.Maps.{Text, text_key, string_key, lookup, insert, remove, put}
use agentplug.BrowserLease.{LeaseHolder, SharedBrowser, reap, World, Host, is_some, read_holder}
use agentplug.BrowserLease.Heartbeat.{enter_wait, leave_wait}
use agentplug.BrowserLease.Claim.{
  Round, Outcome, holding, held_by_other, reap_failed, waiting, claim_session, release_claim,
  publish_holder,
}
use agentplug.BrowserLease.Browsers.{
  Probes, browser_running, same_bool, close_browser, write_browser_record, forget_browser_record,
  adopt_idle_browser, drop_shared_browser, put_adopted,
}

-- `own_profile` is what `profile_dir` answers for the root, `profile` what `profile_for` does, `foreign`
-- whether `refuse_foreign_profile` refuses, and `opened` what `open_browser` answers.
pub record Launch : Type 0 where
  pub own_profile : Text
  pub profile : Text
  pub foreign : Bool
  pub opened : Option SharedBrowser
  pub headful : Bool

pub data SessionReply : Type 0 where
  attached_to : (port pid : ℕ) → SessionReply
  failed still_waiting : SessionReply

with_agent : String → SharedBrowser → SharedBrowser
with_agent agent browser = record browser {
  active = insert agent tt browser.active;
  idle_since_ms = none;
}

without_agent : String → ℕ → SharedBrowser → SharedBrowser
without_agent agent now browser = record browser {
  active = remove agent browser.active;
  idle_since_ms = some now;
}

pub owned_by_agent : String → Option LeaseHolder → Bool
owned_by_agent agent none = false
owned_by_agent agent (some holder) = str_eq holder.owner agent

module _ {Doc : Type 0} (host : Host Doc) where
  release_found : Text → String → ℕ → Option SharedBrowser → World Doc → World Doc
  unfolding without_agent write_browser_record
  release_found root agent now none w = w
  release_found root agent now (some browser) w =
      let left = without_agent agent now browser in
      write_browser_record root left (record w { browsers = insert root left w.browsers })

  unfoldable pub release : Text → String → ℕ → World Doc → World Doc
  unfolding release_found
  release root agent now w =
      release_claim host root (release_found root agent now (lookup root w.browsers) w)

  unfoldable pub release_owned : Text → String → ℕ → World Doc → World Doc
  unfolding release owned_by_agent
  release_owned root agent now w =
      if owned_by_agent agent (read_holder host root w) then release root agent now w else w

module _ {Doc : Type 0} (host : Host Doc) (probes : Probes) (root : Text) (launch : Launch) where
  adopt_if_absent : ℕ → World Doc → World Doc
  unfolding put_adopted adopt_idle_browser
  adopt_if_absent now w =
      let (seen, adopted) =
        adopt_idle_browser host probes root launch.headful launch.own_profile launch.profile now
          w in
      if is_some (lookup root w.browsers) then w else put_adopted root adopted seen

  -- Whether the browser of the root can be used; its process id may be looked up again.
  probe_reusable : Option SharedBrowser → World Doc → World Doc × Bool
  unfolding browser_running
  probe_reusable none w = (w, false)
  probe_reusable (some browser) w =
      let (running, seen) = browser_running probes browser in
      if same_bool browser.headful launch.headful
      then (record w { browsers = insert root seen w.browsers }, running)
      else (w, false)

  close_stale : Option SharedBrowser → World Doc → World Doc
  unfolding close_browser
  close_stale none w = w
  close_stale (some stale) w =
      forget_browser_record root
        (close_browser stale (record w { browsers = remove root w.browsers }))

  put_opened : Option SharedBrowser → World Doc → World Doc × Bool
  put_opened none w = (release_claim host root w, false)
  put_opened (some browser) w = (
    record w { browsers = insert root (record browser { headful = launch.headful }) w.browsers },
    true,
  )

  -- The first half: a browser stands in the map, unless none could be opened.
  pub ensure_browser : ℕ → World Doc → World Doc × Bool
  unfolding adopt_if_absent probe_reusable close_stale put_opened
  ensure_browser now w =
      let seen = adopt_if_absent now w in
      let (probed, reusable) = probe_reusable (lookup root seen.browsers) seen in
      if reusable
      then (probed, true)
      else put_opened launch.opened (close_stale (lookup root probed.browsers) probed)

  join : String → ℕ → Option SharedBrowser → World Doc → World Doc × SessionReply
  unfolding with_agent publish_holder
  join agent now none w = (release_claim host root w, failed)
  join agent now (some browser) w = (
    publish_holder host root browser.port browser.pid now
        (record w { browsers = insert root (with_agent agent browser) w.browsers }),
    attached_to browser.port browser.pid,
  )

  unfoldable pub attach_after_claim : String → ℕ → World Doc → World Doc × SessionReply
  unfolding ensure_browser join
  attach_after_claim agent now w =
      let (ensured, there) = ensure_browser now w in
      let forgotten = forget_browser_record root ensured in
      if there then join agent now (lookup root forgotten.browsers) forgotten else (ensured, failed)

  -- The wait ticket is given back on each way out.
  unfoldable pub acquire_with :
      String → ℕ → ℕ → ℕ → List (Round Doc) → ℕ → World Doc → World Doc × SessionReply
  unfolding attach_after_claim enter_wait leave_wait claim_session
  acquire_with agent ttl_ms wait_ms start rounds now w =
      let (claimed, outcome) =
        claim_session host root agent ttl_ms wait_ms start rounds (enter_wait root w) in
      let (attached, reply) = attach_after_claim agent now claimed in
      if launch.foreign then (w, failed) else elim outcome [
        | holding holder ↦ (leave_wait root attached, reply)
        | waiting ↦ (claimed, still_waiting)
        | held_by_other ↦ (leave_wait root claimed, failed)
        | reap_failed ↦ (leave_wait root claimed, failed)
      ]

  unfoldable pub reconnect_session :
      String → ℕ → ℕ → ℕ → List (Round Doc) → ℕ → World Doc → World Doc × SessionReply
  unfolding attach_after_claim enter_wait leave_wait claim_session drop_shared_browser
  reconnect_session agent ttl_ms wait_ms start rounds now w =
      let (claimed, outcome) =
        claim_session host root agent ttl_ms wait_ms start rounds (enter_wait root w) in
      let (attached, reply) = attach_after_claim agent now (drop_shared_browser root claimed).0 in
      if launch.foreign then (w, failed) else elim outcome [
        | holding holder ↦ (leave_wait root attached, reply)
        | waiting ↦ (claimed, still_waiting)
        | held_by_other ↦ (leave_wait root claimed, failed)
        | reap_failed ↦ (leave_wait root claimed, failed)
      ]
