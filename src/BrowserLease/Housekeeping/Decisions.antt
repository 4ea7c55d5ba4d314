-- ===== src/BrowserLease/Housekeeping/Decisions.antt =====
-- Which browsers the sweep keeps: `housekeeping` of crates/agentplug-host/src/browser_lease.rs.
use agentplug.Base.{
  ℕ, Bool, not, ◌&&◌, ◌||◌, ◌++◌, none, if◌then◌else◌, any, ◌≡◌, refl, ap, ◌∙◌, ◌⊎◌, inl, inr,
  Option, true, false, subst, sym,
}
use agentplug.Base.Maps.{Text, text_key, text_eq, lookup}
use agentplug.Base.Tests.{Bool-cases}
use agentplug.BrowserLease.{SharedBrowser, World, Host, is_some, claim_is_ours, read_holder}
use agentplug.BrowserLease.Heartbeat.{has_waiter}
use agentplug.BrowserLease.Browsers.{Probes}
use agentplug.BrowserLease.Housekeeping.Sweeping.{
  SameBut, any-keys, any-keep, swept, any-keys-swept, sweep_roots-sweeps,
}
use agentplug.BrowserLease.Housekeeping.Losses.{lost_roots-LostAt, close_all-browsers}
use agentplug.BrowserLease.Housekeeping.Unattended.{Unattended, swept-Unattended}
use agentplug.BrowserLease.Housekeeping.{
  keys, is_leased, sweep_roots, lost_roots, gone_from, housekeeping,
}

module _ {Doc : Type 0} (host : Host Doc) (probes : Probes) (now : ℕ) where
  -- The process has the claim of a root in its map, but the owner file is not its own.
  abbrev pub is_lost : Text → World Doc → Bool
  is_lost j w = not (claim_is_ours host j w) && is_some (lookup j w.claimed)

  pub any-gone_from :
      (j : Text) (w u : World Doc)
      → SameBut w u
      → any (λ r. text_eq r j) (gone_from host u) ≡ is_lost j w
  unfolding claim_is_ours read_holder
  any-gone_from j w u (files, claims, waits) =
      rw
        (
          any-keep (λ root. not (claim_is_ours host root u)) j (keys u.claimed),
          any-keys j u.claimed,
          files,
          claims,
        )
        refl

  pub housekeeping-swept :
      (j : Text) (w : World Doc)
      → lookup j (housekeeping host probes now w).browsers ≡ (
          if is_lost j w
          then none
          else swept host probes now (is_leased host j w || has_waiter j w) (lookup j w.browsers))
  unfolding housekeeping
  housekeeping-swept j w =
      let u : World Doc = (sweep_roots host probes now (keys w.browsers) w).0 in
      let closing = (sweep_roots host probes now (keys w.browsers) w).1 in
      let (same, found) = sweep_roots-sweeps host probes now (keys w.browsers) j w in
      let lost = lost_roots (gone_from host u) u in
      let (files, waits, claims, left) = lost_roots-LostAt (gone_from host u) j u in
      ap (lookup j) (close_all-browsers host (closing ++ lost.1) lost.0)
      ∙ left
      ∙ (rw (any-gone_from j w u same, found, any-keys-swept host probes now j w) refl)

  -- The lease was lost, and no browser is left; or the root is leased or waited for, and its browser is left
  -- as it was; or it is neither, and its browser is left as one that nobody attends.
  abbrev pub Decides : Text → World Doc → Option SharedBrowser → Type 0
  Decides j w after =
      ((is_lost j w ≡ true) × (after ≡ none))
      ⊎ ((is_lost j w ≡ false)
          × ((is_leased host j w || has_waiter j w) ≡ true)
          × (after ≡ lookup j w.browsers))
      ⊎ ((is_lost j w ≡ false)
          × ((is_leased host j w || has_waiter j w) ≡ false)
          × Unattended host probes now (lookup j w.browsers) after)

  -- What the sweep leaves at a root: nothing where the lease was lost; the browser as it was, of a root that
  -- is leased or waited for; and else nothing if the browser's endpoint and processes are gone or it was
  -- idle for the window, and if it is alive and was not, the browser under its process's id.
  pub housekeeping-Decides :
      (j : Text) (w : World Doc) → Decides j w (lookup j (housekeeping host probes now w).browsers)
  unfolding swept
  housekeeping-Decides j w = elim (Bool-cases (is_lost j w)) [
    | inl lost ↦ inl (lost, housekeeping-swept j w ∙ (rw lost refl))
    | inr mine ↦ elim (Bool-cases (is_leased host j w || has_waiter j w)) [
      | inl attended ↦
          inr (inl (mine, attended, housekeeping-swept j w ∙ (rw (mine, attended) refl)))
      | inr alone ↦ inr (
          inr (
            mine,
            alone,
            subst (Unattended host probes now (lookup j w.browsers))
                (sym (housekeeping-swept j w ∙ (rw (mine, alone) refl)))
                (swept-Unattended host probes now (lookup j w.browsers)),
          ))
    ]
  ]
