-- ===== src/BrowserLease/Housekeeping/Sweeping.antt =====
-- What the sweep's first loop makes of the browsers: `housekeeping` of
-- crates/agentplug-host/src/browser_lease.rs.
use agentplug.Base.{
  ℕ, Bool, true, false, ◌&&◌, ◌||◌, List, [], ◌∷◌, Option, none, some, if◌then◌else◌, any, ◌≡◌,
  refl, inl, inr, ap, subst, ◌∙◌,
}
use agentplug.Base.{arith}
use agentplug.Base.Tests.{Bool-cases, Option-cases, if-cases}
use agentplug.Base.Lists.{keep}
use agentplug.Base.Maps.{Text, text_key, text_eq, text_eq_iff, lookup, lookup-insert, lookup-remove}
use agentplug.BrowserLease.{SharedBrowser, World, Host, is_some, claim_is_ours, read_holder}
use agentplug.BrowserLease.Heartbeat.{has_waiter}
use agentplug.BrowserLease.Holder.{text_eq-same}
use agentplug.BrowserLease.Browsers.{Probes, browser_running}
use agentplug.BrowserLease.Browsers.Probing.{browser_running-again}
use agentplug.BrowserLease.Heartbeat.Keeping.{same_lookup}
use agentplug.BrowserLease.Housekeeping.{
  Closing, CloseReason, keep_or_close, close_reason, keys, is_leased, sweep_found, sweep_root,
  sweep_roots,
}

module _ {V : Type 0} where
  pub any-keys :
      (j : Text) (m : List (Text × V)) → any (λ r. text_eq r j) (keys m) ≡ is_some (lookup j m)
  unfolding lookup
  any-keys j [] = refl
  any-keys j ((k, v) ∷ m) = ground (arith, any-keys j m)

pub any-keep :
    (p : Text → Bool) (j : Text) (rs : List Text)
    → any (λ r. text_eq r j) (keep p rs) ≡ (p j && any (λ r. text_eq r j) rs)
any-keep p j [] = ground arith
any-keep p j (r ∷ rs) = elim (Bool-cases (text_eq r j)) [
  | inl same ↦ rw ((text_eq_iff r j).0 same) (
      if-cases
        (λ (o : List Text).
          any (λ x. text_eq x j) o ≡ (p j && (text_eq j j || any (λ x. text_eq x j) rs)))
        (p j) (λ yes. rw (text_eq-same j, yes) refl) (λ no. rw (any-keep p j rs, no) refl))
  | inr other ↦
      if-cases
        (λ (o : List Text).
          any (λ x. text_eq x j) o ≡ (p j && (text_eq r j || any (λ x. text_eq x j) rs)))
        (p r) (λ yes. rw other (any-keep p j rs)) (λ no. rw other (any-keep p j rs))
]

-- What the sweep leaves of a browser, by the reason to close it.
unfoldable pub kept : SharedBrowser → Option CloseReason → Option SharedBrowser
kept seen none = some seen
kept seen (some reason) = none

-- Untouched but for the browsers.
abbrev pub SameBut : {Doc : Type 0} → World Doc → World Doc → Type 0
SameBut w u = (u.owner_files ≡ w.owner_files) × (u.claimed ≡ w.claimed) × (u.waiters ≡ w.waiters)

-- The sweep of one root left a browser, or none, at that root, and all others as they were.
abbrev pub Sweeps :
    {Doc : Type 0} (r j : Text)
    → World Doc
    → Option SharedBrowser
    → World Doc × List Closing
    → Type 0
Sweeps r j w left o =
    SameBut w o.0 × (lookup j o.0.browsers ≡ (if text_eq r j then left else lookup j w.browsers))

module _ {Doc : Type 0} where
  untouched-Sweeps : (r j : Text) (w : World Doc) → Sweeps r j w (lookup r w.browsers) (w, [])
  untouched-Sweeps r j w = ((refl, refl, refl), same_lookup r j w.browsers)

  keep_or_close-Sweeps :
      (r j : Text) (seen : SharedBrowser) (reason : Option CloseReason) (w : World Doc)
      → Sweeps r j w (kept seen reason) (keep_or_close r seen reason w)
  unfolding keep_or_close kept
  keep_or_close-Sweeps r j seen none w = ((refl, refl, refl), lookup-insert r j seen w.browsers)
  keep_or_close-Sweeps r j seen (some reason) w = ((refl, refl, refl), lookup-remove r j w.browsers)

module _ {Doc : Type 0} (host : Host Doc) (probes : Probes) (now : ℕ) where
  unfoldable pub probed : SharedBrowser → Option SharedBrowser
  unfolding kept
  probed b =
      kept (browser_running probes b).1
        (close_reason host.idle_window_ms now (browser_running probes b))

  -- What the sweep makes of the browser of a root, which it passes by or looks at.
  unfoldable pub swept : Bool → Option SharedBrowser → Option SharedBrowser
  unfolding probed
  swept true o = o
  swept false none = none
  swept false (some b) = probed b

  close_reason-dead : (b : SharedBrowser) → (browser_running probes b).0 ≡ false → probed b ≡ none
  unfolding probed close_reason
  close_reason-dead b dead = rw dead refl

  pub swept-passed : (o : Option SharedBrowser) → swept true o ≡ o
  unfolding swept
  swept-passed o = refl

  kept_at : Bool × SharedBrowser → Option SharedBrowser
  unfolding kept
  kept_at o = kept o.1 (close_reason host.idle_window_ms now o)

  probed-again : (b : SharedBrowser) → swept false (probed b) ≡ probed b
  unfolding swept probed kept kept_at
  probed-again b =
      elim (Option-cases (close_reason host.idle_window_ms now (browser_running probes b))) [
        | inr (reason, due) ↦ rw due refl
        | inl none_due ↦ elim (Bool-cases (browser_running probes b).0) [
          | inr dead ↦ rw (close_reason-dead b dead) refl
          | inl alive ↦
              rw none_due (rw none_due at (ap kept_at (browser_running-again probes b alive)))
        ]
      ]

  sweep_found-Sweeps :
      (r j : Text) (w : World Doc) (o : Option SharedBrowser)
      → lookup r w.browsers ≡ o
      → Sweeps r j w (swept false o) (sweep_found host probes now r o w)
  unfolding sweep_found swept
  sweep_found-Sweeps r j w none gone =
      subst (λ o. Sweeps r j w o (w, [])) gone (untouched-Sweeps r j w)
  sweep_found-Sweeps r j w (some b) there =
      keep_or_close-Sweeps r j (browser_running probes b).1
        (close_reason host.idle_window_ms now (browser_running probes b)) w

  -- Whether the sweep passes a root by.
  abbrev passed : Text → World Doc → Bool
  passed r w = is_leased host r w || has_waiter r w

  pub sweep_root-Sweeps :
      (r j : Text) (w : World Doc)
      → Sweeps r j w (swept (passed r w) (lookup r w.browsers)) (sweep_root host probes now r w)
  unfolding sweep_root swept
  sweep_root-Sweeps r j w = elim (Bool-cases (passed r w)) [
    | inl pass ↦ rw (pass, sweep_root, swept) (untouched-Sweeps r j w)
    | inr looked ↦ rw (looked, sweep_root) (sweep_found-Sweeps r j w (lookup r w.browsers) refl)
  ]

  pub all_swept : List Text → Text → World Doc → Option SharedBrowser
  unfolding swept
  all_swept roots j w =
      if any (λ r. text_eq r j) roots
      then swept (passed j w) (lookup j w.browsers)
      else lookup j w.browsers

  swept-again : (pass : Bool) (o : Option SharedBrowser) → swept pass (swept pass o) ≡ swept pass o
  unfolding swept
  swept-again true o = refl
  swept-again false none = refl
  swept-again false (some b) = probed-again b

  passed-same : (j : Text) (w u : World Doc) → SameBut w u → passed j u ≡ passed j w
  unfolding is_leased claim_is_ours read_holder
  passed-same j w u (files, claims, waits) = rw (files, claims, waits) refl

  all_swept-cons :
      (r j : Text) (roots : List Text) (w u : World Doc)
      → SameBut w u
      → lookup j u.browsers
        ≡ (if text_eq r j then swept (passed r w) (lookup r w.browsers) else lookup j w.browsers)
      → all_swept roots j u ≡ all_swept (r ∷ roots) j w
  unfolding all_swept
  all_swept-cons r j roots w u same found = elim (Bool-cases (text_eq r j)) [
    | inr other ↦
        rw (passed-same j w u same, all_swept) (rw ((rw other at found), all_swept) (rw other refl))
    | inl key ↦
        let e : r ≡ j = (text_eq_iff r j).0 key in
        let here : lookup j u.browsers ≡ swept (passed j w) (lookup j w.browsers) =
          subst (λ x. lookup j u.browsers ≡ swept (passed x w) (lookup x w.browsers)) e
            (rw key at found) in
        rw (passed-same j w u same, here, key, all_swept)
          (if-cases (λ (o : Option SharedBrowser). o ≡ swept (passed j w) (lookup j w.browsers))
            (any (λ x. text_eq x j) roots) (λ more. swept-again (passed j w) (lookup j w.browsers))
            (λ no_more. refl))
  ]

  pub sweep_roots-sweeps :
      (roots : List Text) (j : Text) (w : World Doc)
      → SameBut w (sweep_roots host probes now roots w).0
        × (lookup j (sweep_roots host probes now roots w).0.browsers ≡ all_swept roots j w)
  unfolding sweep_roots all_swept
  sweep_roots-sweeps [] j w = ((refl, refl, refl), refl)
  sweep_roots-sweeps (r ∷ roots) j w =
      let ((files, claims, waits), found) = sweep_root-Sweeps r j w in
      let u : World Doc = (sweep_root host probes now r w).0 in
      let ((files', claims', waits'), rest) = sweep_roots-sweeps roots j u in
      (
        (files' ∙ files, claims' ∙ claims, waits' ∙ waits),
        rest ∙ all_swept-cons r j roots w u (files, claims, waits) found,
      )

  seen_or_none :
      (pass : Bool) (o : Option SharedBrowser)
      → (if is_some o then swept pass o else o) ≡ swept pass o
  unfolding swept
  seen_or_none true none = refl
  seen_or_none false none = refl
  seen_or_none pass (some b) = refl

  pub any-keys-swept :
      (j : Text) (w : World Doc)
      → all_swept (keys w.browsers) j w ≡ swept (passed j w) (lookup j w.browsers)
  unfolding all_swept swept
  any-keys-swept j w =
      rw (any-keys j w.browsers, all_swept) (seen_or_none (passed j w) (lookup j w.browsers))
