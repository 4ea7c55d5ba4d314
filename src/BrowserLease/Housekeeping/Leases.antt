-- ===== src/BrowserLease/Housekeeping/Leases.antt =====
-- A lease that is held is left alone by the sweep: `housekeeping` of
-- crates/agentplug-host/src/browser_lease.rs.
use agentplug.Base.{
  ℕ, Bool, true, false, ◌&&◌, ◌||◌, List, [], ◌∷◌, ◌++◌, Option, none, some, any, ◌≡◌, refl, inl,
  inr, ap, ◌∙◌,
}
use agentplug.Base.Lists.{All}
use agentplug.Base.Tests.{Bool-cases, if-cases}
use agentplug.Base.Maps.{Text, text_key, text_eq, text_eq_iff, lookup}
use agentplug.BrowserLease.{SharedBrowser, World, Host, is_some, claim_is_ours, read_holder}
use agentplug.BrowserLease.Heartbeat.{has_waiter, unclaim}
use agentplug.BrowserLease.Browsers.{Probes, browser_running}
use agentplug.BrowserLease.Housekeeping.{
  Closing, CloseReason, keep_or_close, close_reason, keys, is_leased, sweep_found, sweep_root,
  sweep_roots, lost_found, lost_root, lost_roots, gone_from, housekeeping,
}
use agentplug.BrowserLease.Housekeeping.Losses.{lost_roots-LostAt, close_all-ClosedBut}
use agentplug.BrowserLease.Housekeeping.Sweeping.{
  SameBut, sweep_root-Sweeps, sweep_roots-sweeps, swept-passed,
}
use agentplug.BrowserLease.Housekeeping.Decisions.{any-gone_from, is_lost, housekeeping-swept}

abbrev NoneOf : Text → List Closing → Type 0
NoneOf j cs = All (λ c. text_eq c.root j ≡ false) cs

NoneOf-append : (j : Text) (cs ds : List Closing) → NoneOf j cs → NoneOf j ds → NoneOf j (cs ++ ds)
NoneOf-append j [] ds hc hd = hd
NoneOf-append j (c ∷ cs) ds (h, hc) hd = (h, NoneOf-append j cs ds hc hd)

or_none : (a : Bool) {b : Bool} → (a || b) ≡ false → (a ≡ false) × (b ≡ false)
or_none true h = absurd (cc h)
or_none false h = (refl, h)

and_both : (a b : Bool) → (a && b) ≡ true → (a ≡ true) × (b ≡ true)
and_both true b h = (refl, h)
and_both false b h = absurd (cc h)

module _ {Doc : Type 0} where
  keep_or_close-NoneOf :
      (r j : Text) (seen : SharedBrowser) (reason : Option CloseReason) (w : World Doc)
      → text_eq r j ≡ false
      → NoneOf j (keep_or_close r seen reason w).1
  unfolding keep_or_close
  keep_or_close-NoneOf r j seen none w other = tt
  keep_or_close-NoneOf r j seen (some reason) w other = (other, tt)

  lost_found-NoneOf :
      (r j : Text) (o : Option SharedBrowser) (w : World Doc)
      → text_eq r j ≡ false
      → NoneOf j (lost_found r o w).1
  unfolding lost_found
  lost_found-NoneOf r j none w other = tt
  lost_found-NoneOf r j (some b) w other = (other, tt)

  lost_roots-NoneOf :
      (roots : List Text) (j : Text) (w : World Doc)
      → any (λ r. text_eq r j) roots ≡ false
      → NoneOf j (lost_roots roots w).1
  unfolding lost_roots lost_root
  lost_roots-NoneOf [] j w others = tt
  lost_roots-NoneOf (r ∷ roots) j w others =
      let (other, rest) = or_none (text_eq r j) others in
      let given : World Doc = unclaim r w in
      NoneOf-append j (lost_root r w).1 (lost_roots roots (lost_root r w).0).1
        (lost_found-NoneOf r j (lookup r given.browsers) given other)
        (lost_roots-NoneOf roots j (lost_root r w).0 rest)

module _ {Doc : Type 0} (host : Host Doc) (probes : Probes) (now : ℕ) where
  sweep_found-NoneOf :
      (r j : Text) (o : Option SharedBrowser) (w : World Doc)
      → text_eq r j ≡ false
      → NoneOf j (sweep_found host probes now r o w).1
  unfolding sweep_found
  sweep_found-NoneOf r j none w other = tt
  sweep_found-NoneOf r j (some b) w other =
      keep_or_close-NoneOf r j (browser_running probes b).1
        (close_reason host.idle_window_ms now (browser_running probes b)) w other

  sweep_root-NoneOf :
      (r j : Text) (w : World Doc)
      → is_leased host j w ≡ true
      → NoneOf j (sweep_root host probes now r w).1
  unfolding sweep_root
  sweep_root-NoneOf r j w leased = elim (Bool-cases (text_eq r j)) [
    | inr other ↦
        if-cases (λ (o : World Doc × List Closing). NoneOf j o.1)
          (is_leased host r w || has_waiter r w) (λ pass. tt)
          (λ looked. sweep_found-NoneOf r j (lookup r w.browsers) w other)
    | inl same ↦
        let e : r ≡ j = (text_eq_iff r j).0 same in
        if-cases (λ (o : World Doc × List Closing). NoneOf j o.1)
          (is_leased host r w || has_waiter r w) (λ pass. tt)
          (λ looked.
            let here : is_leased host r w ≡ true = rw e leased in
            absurd (cc (here, (or_none (is_leased host r w) looked).0)))
  ]

  same-is_leased :
      (j : Text) (w u : World Doc) → SameBut w u → is_leased host j u ≡ is_leased host j w
  unfolding is_leased claim_is_ours read_holder
  same-is_leased j w u (files, claims, waits) = rw (files, claims) refl

  sweep_roots-NoneOf :
      (roots : List Text) (j : Text) (w : World Doc)
      → is_leased host j w ≡ true
      → NoneOf j (sweep_roots host probes now roots w).1
  unfolding sweep_roots
  sweep_roots-NoneOf [] j w leased = tt
  sweep_roots-NoneOf (r ∷ roots) j w leased =
      let u : World Doc = (sweep_root host probes now r w).0 in
      let (same, found) = sweep_root-Sweeps host probes now r j w in
      NoneOf-append j (sweep_root host probes now r w).1 (sweep_roots host probes now roots u).1
        (sweep_root-NoneOf r j w leased)
        (sweep_roots-NoneOf roots j u (rw (same-is_leased j w u same) leased))

  leased_by_lookups :
      (j : Text) (w u : World Doc)
      → lookup j u.claimed ≡ lookup j w.claimed
      → lookup j u.owner_files ≡ lookup j w.owner_files
      → is_leased host j u ≡ is_leased host j w
  unfolding is_leased claim_is_ours read_holder
  leased_by_lookups j w u claims files = rw (claims, files) refl

  not_lost :
      (j : Text) (w : World Doc) → is_leased host j w ≡ true → is_lost host probes now j w ≡ false
  unfolding is_leased
  not_lost j w leased =
      rw (and_both (is_some (lookup j w.claimed)) (claim_is_ours host j w) leased).1 refl

  kept_lookups :
      (j : Text) (w : World Doc)
      → is_leased host j w ≡ true
      → (lookup j (housekeeping host probes now w).claimed ≡ lookup j w.claimed)
        × (lookup j (housekeeping host probes now w).owner_files ≡ lookup j w.owner_files)
  unfolding housekeeping
  kept_lookups j w leased =
      let (u, closing) = sweep_roots host probes now (keys w.browsers) w in
      let ((files, claims, waits), found) =
        sweep_roots-sweeps host probes now (keys w.browsers) j w in
      let gone : List Text = gone_from host u in
      let lost = lost_roots gone u in
      let none_gone : any (λ r. text_eq r j) gone ≡ false =
        any-gone_from host probes now j w u (files, claims, waits) ∙ not_lost j w leased in
      let (files', waits', claims', left) = lost_roots-LostAt gone j u in
      let (claims'', files'') = close_all-ClosedBut host (closing ++ lost.1) j lost.0 (
        NoneOf-append j closing lost.1 (sweep_roots-NoneOf (keys w.browsers) j w leased)
          (lost_roots-NoneOf gone j u none_gone)) in
      (
        claims'' ∙ (rw none_gone at claims') ∙ ap (lookup j) claims,
        files'' ∙ ap (lookup j) (files' ∙ files),
      )

  -- A root whose lease this process holds keeps its claim, its owner file and its browser.
  pub housekeeping-keeps_lease :
      (j : Text) (w : World Doc)
      → is_leased host j w ≡ true
      → (is_leased host j (housekeeping host probes now w) ≡ true)
        × (lookup j (housekeeping host probes now w).owner_files ≡ lookup j w.owner_files)
        × (lookup j (housekeeping host probes now w).browsers ≡ lookup j w.browsers)
  housekeeping-keeps_lease j w leased =
      let (claims, files) = kept_lookups j w leased in
      (
        leased_by_lookups j w (housekeeping host probes now w) claims files ∙ leased,
        files,
        housekeeping-swept host probes now j w
            ∙ rw (not_lost j w leased, leased, swept-passed host probes now (lookup j w.browsers))
                refl,
      )
