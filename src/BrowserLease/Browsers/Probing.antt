-- ===== src/BrowserLease/Browsers/Probing.antt =====
-- Probes of a browser: `browser_running` of crates/agentplug-host/src/browser_lease.rs.
use agentplug.Base.{ℕ, Bool, true, false, ◌||◌, Option, none, some, ◌≡◌, refl}
use agentplug.Base.Tests.{if-cases}
use agentplug.BrowserLease.{SharedBrowser, BrowserRecord, World, Host}
use agentplug.Base.{leb, ◌==◌, ◌-◌, ◌&&◌, not}
use agentplug.Base.Maps.{Text, text_key, text_eq, lookup}
use agentplug.BrowserLease.Browsers.{
  Probes, browser_running, resolved, close_browser, adopt_record, adopted_browser, adoption_alive,
  same_bool, adopt_idle_browser,
}

or_true : (a : Bool) {b : Bool} → b ≡ true → (a || b) ≡ true
or_true true e = refl
or_true false e = e

resolved-again :
    (probes : Probes) (b : SharedBrowser)
    → b.attached ≡ false
    → (o : Option ℕ) → (resolved probes b o).0 ≡ true
    → browser_running probes (resolved probes b o).1 ≡ resolved probes b o
unfolding resolved browser_running
resolved-again probes b own none = λ e. cc
resolved-again probes b own (some pid) =
    if-cases (λ (o : Bool × SharedBrowser). o.0 ≡ true → browser_running probes o.1 ≡ o)
      (probes.process_exists pid)
      (λ alive e.
        rw (own, browser_running) (rw (or_true (probes.endpoint_ready b.port) alive) refl))
      (λ dead e. cc)

-- A probe that finds a browser running finds it again.
pub browser_running-again :
    (probes : Probes) (b : SharedBrowser)
    → (browser_running probes b).0 ≡ true
    → browser_running probes (browser_running probes b).1 ≡ browser_running probes b
unfolding browser_running
browser_running-again probes b =
    let Again : Bool × SharedBrowser → Type 0 =
      λ (o : Bool × SharedBrowser). o.0 ≡ true → browser_running probes o.1 ≡ o in
    if-cases Again b.attached (λ yes e. rw (yes, browser_running) refl)
      (λ no.
        if-cases Again (probes.endpoint_ready b.port || probes.process_exists b.pid)
          (λ found e. rw (no, browser_running) (rw found refl))
          (λ lost. resolved-again probes b no (probes.browser_pid b.profile)))

module _ {Doc : Type 0} (host : Host Doc) (probes : Probes) (root : Text) where
  close_browser-claims :
      (b : SharedBrowser) (w : World Doc) → (close_browser b w).claimed ≡ w.claimed
  unfolding close_browser
  close_browser-claims b w =
      if-cases (λ (u : World Doc). u.claimed ≡ w.claimed) b.attached (λ foreign. refl) (λ own. refl)

  adopt_record-claims :
      (headful : Bool) (own_profile wanted : Text) (now : ℕ) (o : Option BrowserRecord)
      (w : World Doc)
      → (adopt_record host probes root headful own_profile wanted now o w).0.claimed ≡ w.claimed
  unfolding adopt_record
  adopt_record-claims headful own_profile wanted now none w = refl
  adopt_record-claims headful own_profile wanted now (some r) w =
      let b : SharedBrowser = adopted_browser own_profile r in
      let Same : World Doc × Option SharedBrowser → Type 0 =
        λ (o : World Doc × Option SharedBrowser). o.0.claimed ≡ w.claimed in
      if-cases Same
        (b.port == 0 || (b.pid == 0 && not b.attached) || not (same_bool b.headful headful))
        (λ unusable. refl)
        (λ usable.
          if-cases Same (not (adoption_alive probes b)) (λ gone. refl)
            (λ alive.
              if-cases Same (not (text_eq b.profile wanted)) (λ other. close_browser-claims b w)
                (λ same.
                  if-cases Same (leb host.idle_window_ms (now - r.idle_since_ms))
                    (λ expired. close_browser-claims b w) (λ recent. refl))))

  -- An adoption leaves the claims as they were.
  pub adopt_idle_browser-claims :
      (headful : Bool) (own_profile wanted : Text) (now : ℕ) (w : World Doc)
      → (adopt_idle_browser host probes root headful own_profile wanted now w).0.claimed ≡ w.claimed
  unfolding adopt_idle_browser
  adopt_idle_browser-claims headful own_profile wanted now w =
      adopt_record-claims headful own_profile wanted now (lookup root w.records) w
