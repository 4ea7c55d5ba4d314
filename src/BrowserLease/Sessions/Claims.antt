-- ===== src/BrowserLease/Sessions/Claims.antt =====
-- The claim while a browser is found or opened under it: `attach_after_claim` of
-- crates/agentplug-host/src/browser_lease.rs.
use agentplug.Base.{ℕ, Bool, true, Option, none, some, ◌≡◌, refl, ◌∙◌}
use agentplug.Base.Tests.{if-cases}
use agentplug.Base.Maps.{Text, text_key, lookup, remove}
use agentplug.BrowserLease.{SharedBrowser, World, Host, is_some}
use agentplug.BrowserLease.Browsers.{Probes, same_bool, adopt_idle_browser, put_adopted}
use agentplug.BrowserLease.Browsers.Probing.{adopt_idle_browser-claims}
use agentplug.BrowserLease.Housekeeping.Losses.{close_browser-keeps}
use agentplug.BrowserLease.Sessions.{
  Launch, adopt_if_absent, probe_reusable, close_stale, put_opened, ensure_browser,
}

module _ {Doc : Type 0} where
  put_adopted-claims :
      (root : Text) (o : Option SharedBrowser) (w : World Doc)
      → (put_adopted root o w).claimed ≡ w.claimed
  unfolding put_adopted
  put_adopted-claims root none w = refl
  put_adopted-claims root (some b) w = refl

module _ {Doc : Type 0} (host : Host Doc) (probes : Probes) (root : Text) (launch : Launch) where
  adopt_if_absent-claims :
      (now : ℕ) (w : World Doc)
      → (adopt_if_absent host probes root launch now w).claimed ≡ w.claimed
  unfolding adopt_if_absent
  adopt_if_absent-claims now w =
      let (seen, adopted) =
        adopt_idle_browser host probes root launch.headful launch.own_profile launch.profile now
          w in
      if-cases (λ (u : World Doc). u.claimed ≡ w.claimed) (is_some (lookup root w.browsers))
        (λ there. refl)
        (λ absent.
          put_adopted-claims root adopted seen
          ∙ adopt_idle_browser-claims host probes root launch.headful launch.own_profile
              launch.profile now w)

  probe_reusable-claims :
      (o : Option SharedBrowser) (w : World Doc)
      → (probe_reusable host probes root launch o w).0.claimed ≡ w.claimed
  unfolding probe_reusable
  probe_reusable-claims none w = refl
  probe_reusable-claims (some b) w =
      if-cases (λ (o : World Doc × Bool). o.0.claimed ≡ w.claimed)
        (same_bool b.headful launch.headful) (λ same. refl) (λ other. refl)

  close_stale-claims :
      (o : Option SharedBrowser) (w : World Doc)
      → (close_stale host probes root launch o w).claimed ≡ w.claimed
  unfolding close_stale
  close_stale-claims none w = refl
  close_stale-claims (some b) w =
      (close_browser-keeps host b (record w { browsers = remove root w.browsers })).0

  put_opened-claims :
      (o : Option SharedBrowser) (w : World Doc)
      → (put_opened host probes root launch o w).1 ≡ true
      → (put_opened host probes root launch o w).0.claimed ≡ w.claimed
  unfolding put_opened
  put_opened-claims none w = λ e. absurd (cc e)
  put_opened-claims (some b) w = λ e. refl

  -- A browser that is found or opened leaves the claims as they were.
  pub ensure_browser-claims :
      (now : ℕ) (w : World Doc)
      → (ensure_browser host probes root launch now w).1 ≡ true
      → (ensure_browser host probes root launch now w).0.claimed ≡ w.claimed
  unfolding ensure_browser
  ensure_browser-claims now w =
      let seen : World Doc = adopt_if_absent host probes root launch now w in
      let probed = probe_reusable host probes root launch (lookup root seen.browsers) seen in
      let stale = lookup root probed.0.browsers in
      let before : probed.0.claimed ≡ w.claimed =
        probe_reusable-claims (lookup root seen.browsers) seen ∙ adopt_if_absent-claims now w in
      if-cases (λ (o : World Doc × Bool). o.1 ≡ true → o.0.claimed ≡ w.claimed) probed.1
        (λ yes e. before)
        (λ no e.
          put_opened-claims launch.opened (close_stale host probes root launch stale probed.0) e
          ∙ close_stale-claims stale probed.0
          ∙ before)
