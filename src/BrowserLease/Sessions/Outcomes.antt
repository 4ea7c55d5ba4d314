-- ===== src/BrowserLease/Sessions/Outcomes.antt =====
-- What the calls of a session leave behind: `acquire_with` of
-- crates/agentplug-host/src/browser_lease.rs.
use agentplug.BrowserLease.{is_some}
use agentplug.Base.{true}
use agentplug.Base.{
  ℕ, ◌^◌, ◌<◌, Bool, false, List, Option, none, some, String, ◌≡◌, ◌⊎◌, refl, inl, inr, ap, ◌∙◌,
  eq_refl,
}
use agentplug.Base.Tests.{Option-cases, if-cases}
use agentplug.Base.Maps.{Text, text_key, string_key, lookup, insert, lookup-insert}
use agentplug.BrowserLease.{LeaseHolder, SharedBrowser, World, Host, read_holder, claim_is_ours}
use agentplug.BrowserLease.Heartbeat.{enter_wait, leave_wait}
use agentplug.BrowserLease.Claim.{Round, holding, claim_session}
use agentplug.BrowserLease.Heartbeat.Keeping.{lookup-same}
use agentplug.BrowserLease.Claim.Publishing.{publish_holder-browsers, publish_holder-claims}
use agentplug.BrowserLease.Claim.Holding.{claim_session-Holds}
use agentplug.BrowserLease.Holder.{Printed}
use agentplug.BrowserLease.Sessions.Claims.{ensure_browser-claims}
use agentplug.BrowserLease.Claim.Releasing.{Released, release_claim-Released}
use agentplug.BrowserLease.Browsers.{Probes, forget_browser_record}
use agentplug.BrowserLease.Sessions.{
  Launch, SessionReply, attached_to, failed, with_agent, adopt_if_absent, probe_reusable,
  close_stale, put_opened, ensure_browser, join, attach_after_claim, acquire_with,
}

agent-active :
    (agent : String) (m : List (String × Unit {0})) → lookup agent (insert agent tt m) ≡ some tt
agent-active agent m = rw (lookup-insert agent agent tt m, eq_refl agent) refl

module _ {Doc : Type 0} (host : Host Doc) (root : Text) where
  -- The browser of the root is the one that a reply tells of, an agent is active on it, and it is
  -- not idle.
  pub record Attached (agent : String) (reply : SessionReply) (w : World Doc) : Type 0 where
    pub browser : SharedBrowser
    pub found : lookup root w.browsers ≡ some browser
    pub told : reply ≡ attached_to browser.port browser.pid
    pub is_active : lookup agent browser.active ≡ some tt
    pub is_busy : browser.idle_since_ms ≡ none
    pub has_claim : is_some (lookup root w.claimed) ≡ true

  pub Settled : String → World Doc × SessionReply → Type 0
  Settled agent o = Attached agent o.1 o.0 ⊎ ((o.1 ≡ failed) × Released host root o.0)

  put_opened-fails :
      (probes : Probes) (launch : Launch) (o : Option SharedBrowser) (w : World Doc)
      → (put_opened host probes root launch o w).1 ≡ false
      → Released host root (put_opened host probes root launch o w).0
  unfolding put_opened
  put_opened-fails probes launch none w = λ e. release_claim-Released host root w
  put_opened-fails probes launch (some b) w = λ e. absurd (cc e)

module _ {Doc : Type 0} (host : Host Doc) (probes : Probes) (root : Text) (launch : Launch) where
  join-Settled :
      (agent : String) (now : ℕ) (o : Option SharedBrowser) (w : World Doc)
      → is_some (lookup root w.claimed) ≡ true
      → Settled host root agent (join host probes root launch agent now o w)
  unfolding join with_agent Settled
  join-Settled agent now none w claim = inr (refl, release_claim-Released host root w)
  join-Settled agent now (some b) w claim =
      let joined : World Doc = record w {
        browsers = insert root (with_agent agent b) w.browsers;
      } in
      inl (record {
        browser = with_agent agent b;
        found =
            ap (lookup root) (publish_holder-browsers host root b.port b.pid now joined)
            ∙ lookup-same root (with_agent agent b) w.browsers;
        told = refl;
        is_active = agent-active agent b.active;
        is_busy = refl;
        has_claim =
            ap (λ m. is_some (lookup root m))
              (publish_holder-claims host root b.port b.pid now joined)
            ∙ claim;
      })

  ensure_browser-fails :
      (now : ℕ) (w : World Doc)
      → (ensure_browser host probes root launch now w).1 ≡ false
      → Released host root (ensure_browser host probes root launch now w).0
  unfolding ensure_browser
  ensure_browser-fails now w =
      let seen : World Doc = adopt_if_absent host probes root launch now w in
      let probed = probe_reusable host probes root launch (lookup root seen.browsers) seen in
      if-cases (λ (o : World Doc × Bool). o.1 ≡ false → Released host root o.0) probed.1
        (λ yes e. absurd (cc e))
        (λ no.
          put_opened-fails host root probes launch launch.opened
            (close_stale host probes root launch (lookup root probed.0.browsers) probed.0))

  attach_after_claim-Settled :
      (agent : String) (now : ℕ) (w : World Doc)
      → is_some (lookup root w.claimed) ≡ true
      → Settled host root agent (attach_after_claim host probes root launch agent now w)
  unfolding attach_after_claim Settled
  attach_after_claim-Settled agent now w claim =
      let ensured = ensure_browser host probes root launch now w in
      let forgotten : World Doc = forget_browser_record root ensured.0 in
      if-cases (Settled host root agent) ensured.1
        (λ there. join-Settled agent now (lookup root forgotten.browsers) forgotten (
          ap (λ m. is_some (lookup root m))
            (ensure_browser-claims host probes root launch now w there)
          ∙ claim))
        (λ lacking. inr (refl, ensure_browser-fails now w lacking))

  leave_wait-keeps :
      (u : World Doc)
      → ((leave_wait root u).browsers ≡ u.browsers)
        × ((leave_wait root u).claimed ≡ u.claimed)
        × ((leave_wait root u).owner_files ≡ u.owner_files)
  unfolding leave_wait
  leave_wait-keeps u = elim (Option-cases (lookup root u.waiters)) [
    | inl none_yet ↦ rw (none_yet, leave_wait) (refl, refl, refl)
    | inr (count, there) ↦ rw (there, leave_wait) (refl, refl, refl)
  ]

  leave_wait-Settled :
      (agent : String) (u : World Doc) (reply : SessionReply)
      → Settled host root agent (u, reply)
      → Settled host root agent (leave_wait root u, reply)
  unfolding Settled claim_is_ours read_holder
  leave_wait-Settled agent u reply settled =
      let (browsers, claims, files) = leave_wait-keeps u in
      elim settled [
        | inl a ↦ inl (record {
          browser = a.browser;
          found = rw browsers a.found;
          told = a.told;
          is_active = a.is_active;
          is_busy = a.is_busy;
          has_claim = rw claims a.has_claim;
        })
        | inr (no_reply, (gone, other)) ↦ inr (no_reply, (rw claims gone, rw files other))
      ]

  -- A call that gets the lease ends in one of two ways. It is told of a browser that then stands in the
  -- map, with the agent active on it and not idle, and its process has kept the claim; or it fails, and then
  -- its process has neither the claim nor the owner file.
  pub acquire_with-Settled :
      (agent : String) (ttl_ms wait_ms start : ℕ) (rounds : List (Round Doc)) (now : ℕ)
      (w : World Doc) (h : LeaseHolder)
      → host.pid < 2 ^ 32
      → Printed host
      → launch.foreign ≡ false
      → (claim_session host root agent ttl_ms wait_ms start rounds (enter_wait root w)).1
        ≡ holding h
      → Settled host root agent
          (acquire_with host probes root launch agent ttl_ms wait_ms start rounds now w)
  unfolding acquire_with
  acquire_with-Settled agent ttl_ms wait_ms start rounds now w h pid_fits printed own held =
      let claimed : World Doc =
        (claim_session host root agent ttl_ms wait_ms start rounds (enter_wait root w)).0 in
      let (since, holds) =
        claim_session-Holds host root agent ttl_ms wait_ms start rounds (enter_wait root w) h
          pid_fits printed held in
      let done = attach_after_claim host probes root launch agent now claimed in
      rw (held, own, acquire_with)
        (leave_wait-Settled agent done.0 done.1
          (attach_after_claim-Settled agent now claimed holds.has_claim))
