-- ===== src/BrowserLease/Housekeeping.antt =====
-- The timer's sweep over the browsers and the shutdown of a runner: `housekeeping` and
-- `shutdown_shared_browsers` of crates/agentplug-host/src/browser_lease.rs. What `reap_idle_untracked` does
-- to processes that no map knows is not modelled.
pub mod Losses
pub mod Sweeping
pub mod Unattended
pub mod Decisions
pub mod Leases
pub mod Shutdown
use agentplug.Base.{
  ℕ, ◌-◌, leb, ltb, Bool, true, false, not, ◌&&◌, ◌||◌, List, [], ◌∷◌, ◌++◌, Option, none, some,
  if◌then◌else◌, map,
}
use agentplug.Base.Lists.{keep}
use agentplug.Base.Maps.{Text, text_key, lookup, insert, remove}
use agentplug.BrowserLease.{SharedBrowser, World, Host, is_some, claim_is_ours}
use agentplug.BrowserLease.Heartbeat.{has_waiter, unclaim, stop_heartbeat}
use agentplug.BrowserLease.Claim.{release_claim, release_session}
use agentplug.BrowserLease.Browsers.{
  Probes, browser_running, close_browser, write_browser_record, forget_browser_record,
}

pub data CloseReason : Type 0 where
  exited : CloseReason
  idle : (idle_ms : ℕ) → CloseReason
  lease_lost : CloseReason

pub record Closing : Type 0 where
  pub root : Text
  pub browser : SharedBrowser
  pub reason : CloseReason

-- The reason to close a browser that is neither leased nor waited for, by the window and the clock.
unfoldable pub close_reason : ℕ → ℕ → Bool × SharedBrowser → Option CloseReason
close_reason window now (false, browser) = some exited
close_reason window now (true, browser) = elim browser.idle_since_ms [
  | none ↦ none
  | some since ↦ if leb window (now - since) then some (idle (now - since)) else none
]

abbrev keys {ℓ} : {V : Type ℓ} → List (Text × V) → List Text
keys [] = []
keys ((k, v) ∷ m) = k ∷ keys m

is_used : SharedBrowser → Bool
is_used browser = elim browser.active [ [] ↦ false | agent ∷ agents ↦ true ]

in_window : ℕ → ℕ → Option ℕ → Bool
in_window window now none = false
in_window window now (some since) = ltb (now - since) window

module _ {Doc : Type 0} where
  -- A browser stays in the map as its probe left it, or is among those to close.
  keep_or_close : Text → SharedBrowser → Option CloseReason → World Doc → World Doc × List Closing
  keep_or_close root seen none w = (record w { browsers = insert root seen w.browsers }, [])
  keep_or_close root seen (some reason) w = (
    record w { browsers = remove root w.browsers },
    record { root = root; browser = seen; reason = reason } ∷ [],
  )

  lost_found : Text → Option SharedBrowser → World Doc → World Doc × List Closing
  lost_found root none w = (w, [])
  lost_found root (some browser) w = (
    record w { browsers = remove root w.browsers },
    record { root = root; browser = browser; reason = lease_lost } ∷ [],
  )

  lost_root : Text → World Doc → World Doc × List Closing
  unfolding stop_heartbeat lost_found
  lost_root root w =
      let given = unclaim root w in lost_found root (lookup root given.browsers) given

  pub lost_roots : List Text → World Doc → World Doc × List Closing
  unfolding lost_root
  lost_roots [] w = (w, [])
  lost_roots (root ∷ roots) w =
      let (lost, closing) = lost_root root w in
      let (rest, more) = lost_roots roots lost in (rest, closing ++ more)

module _ {Doc : Type 0} (host : Host Doc) where
  unfoldable pub is_leased : Text → World Doc → Bool
  is_leased root w = is_some (lookup root w.claimed) && claim_is_ours host root w

  module _ (probes : Probes) (now : ℕ) where
    -- The browser of a root that is neither leased nor waited for, if there is one.
    sweep_found : Text → Option SharedBrowser → World Doc → World Doc × List Closing
    unfolding browser_running close_reason keep_or_close
    sweep_found root none w = (w, [])
    sweep_found root (some browser) w =
        let (running, seen) = browser_running probes browser in
        keep_or_close root seen (close_reason host.idle_window_ms now (running, seen)) w

    pub sweep_root : Text → World Doc → World Doc × List Closing
    unfolding is_leased sweep_found
    sweep_root root w =
        if is_leased root w || has_waiter root w
        then (w, [])
        else sweep_found root (lookup root w.browsers) w

    pub sweep_roots : List Text → World Doc → World Doc × List Closing
    unfolding sweep_root
    sweep_roots [] w = (w, [])
    sweep_roots (root ∷ roots) w =
        let (swept, closing) = sweep_root root w in
        let (rest, more) = sweep_roots roots swept in (rest, closing ++ more)

  abbrev gone_from : World Doc → List Text
  gone_from w = keep (λ root. not (claim_is_ours host root w)) (keys w.claimed)

  close_one : Closing → World Doc → World Doc
  unfolding close_browser release_claim
  close_one c w =
      release_claim host c.root (forget_browser_record c.root (close_browser c.browser w))

  pub close_all : List Closing → World Doc → World Doc
  unfolding close_one
  close_all [] w = w
  close_all (c ∷ cs) w = close_all cs (close_one c w)

  unfoldable pub housekeeping : Probes → ℕ → World Doc → World Doc
  unfolding sweep_roots lost_roots close_all
  housekeeping probes now w =
      let (swept, closing) = sweep_roots probes now (keys w.browsers) w in
      let (lost, more) = lost_roots (gone_from swept) swept in close_all (closing ++ more) lost

  -- A browser is kept over the shutdown when nobody uses it and its window is not over.
  shutdown_one : ℕ → Text → SharedBrowser → World Doc → World Doc
  unfolding is_used in_window write_browser_record close_browser release_session
  shutdown_one now root browser w =
      let busy = is_used browser || is_some (lookup root w.claimed) || has_waiter root w in
      if not busy && in_window host.idle_window_ms now browser.idle_since_ms
      then write_browser_record root browser w
      else release_session host root (forget_browser_record root (close_browser browser w))

  shutdown_all : ℕ → List (Text × SharedBrowser) → World Doc → World Doc
  unfolding shutdown_one
  shutdown_all now [] w = w
  shutdown_all now ((root, browser) ∷ drained) w =
      shutdown_all now drained (shutdown_one now root browser w)

  give_up_all : List Text → World Doc → World Doc
  unfolding release_session
  give_up_all [] w = w
  give_up_all (root ∷ roots) w =
      give_up_all roots (release_session host root (stop_heartbeat root w))

  unfoldable pub shutdown_shared_browsers : ℕ → World Doc → World Doc
  unfolding shutdown_all give_up_all
  shutdown_shared_browsers now w =
      let ended = shutdown_all now w.browsers (record w { browsers = [] }) in
      give_up_all (keys ended.claimed) (record ended { claimed = [] })
