-- ===== src/BrowserLease/Housekeeping/Losses.antt =====
-- The claims that the sweep finds lost, and the closing of browsers: the second and third loop of
-- `housekeeping` in crates/agentplug-host/src/browser_lease.rs.
use agentplug.Base.{
  Bool, true, false, ◌||◌, List, [], ◌∷◌, Option, none, some, if◌then◌else◌, any, ◌≡◌, refl, ap,
  subst, ◌∙◌,
}
use agentplug.Base.Lists.{All}
use agentplug.Base.Tests.{if-cases}
use agentplug.Base.Maps.{Text, text_key, text_eq, lookup, lookup-remove}
use agentplug.BrowserLease.{SharedBrowser, World, Host}
use agentplug.BrowserLease.Heartbeat.{unclaim}
use agentplug.BrowserLease.Claim.Releasing.{
  ClosedBut, release_claim-browsers, release_claim-ClosedBut,
}
use agentplug.BrowserLease.Heartbeat.Keeping.{unclaim-keeps, same_lookup}
use agentplug.BrowserLease.Browsers.{close_browser, forget_browser_record}
use agentplug.BrowserLease.Housekeeping.{
  Closing, lost_found, lost_root, lost_roots, close_one, close_all,
}

-- The loss of one root took its claim and its browser, and left all else that the sweep reads.
abbrev pub LostAt : {Doc : Type 0} → Bool → Text → World Doc → World Doc → Type 0
LostAt lost j w u =
    (u.owner_files ≡ w.owner_files)
    × (u.waiters ≡ w.waiters)
    × (lookup j u.claimed ≡ (if lost then none else lookup j w.claimed))
    × (lookup j u.browsers ≡ (if lost then none else lookup j w.browsers))

gone_twice {ℓ} :
    {A : Type ℓ} (a b : Bool) (x : Option A) {y z : Option A}
    → y ≡ (if a then none else x)
    → z ≡ (if b then none else y)
    → z ≡ (if a || b then none else x)
gone_twice true true x p q = q
gone_twice true false x p q = q ∙ p
gone_twice false true x p q = q
gone_twice false false x p q = q ∙ p

LostAt-trans :
    {Doc : Type 0} (a b : Bool) (j : Text) (w u v : World Doc)
    → LostAt a j w u
    → LostAt b j u v
    → LostAt (a || b) j w v
LostAt-trans a b j w u v (files, waits, claims, found) (files', waits', claims', found') = (
  files' ∙ files,
  waits' ∙ waits,
  gone_twice a b (lookup j w.claimed) claims claims',
  gone_twice a b (lookup j w.browsers) found found',
)

lost_found-lost :
    {Doc : Type 0} (r j : Text) (o : Option SharedBrowser) (g : World Doc)
    → lookup r g.browsers ≡ o
    → ((lost_found r o g).0.owner_files ≡ g.owner_files)
      × ((lost_found r o g).0.waiters ≡ g.waiters)
      × ((lost_found r o g).0.claimed ≡ g.claimed)
      × (lookup j (lost_found r o g).0.browsers
          ≡ (if text_eq r j then none else lookup j g.browsers))
unfolding lost_found
lost_found-lost r j none g gone = (
  refl,
  refl,
  refl,
  subst (λ o. lookup j g.browsers ≡ (if text_eq r j then o else lookup j g.browsers)) gone
      (same_lookup r j g.browsers),
)
lost_found-lost r j (some b) g there = (refl, refl, refl, lookup-remove r j g.browsers)

module _ {Doc : Type 0} where
  lost_root-LostAt : (r j : Text) (w : World Doc) → LostAt (text_eq r j) j w (lost_root r w).0
  unfolding lost_root
  lost_root-LostAt r j w =
      let given : World Doc = unclaim r w in
      let (claims, files, browsers, waits, beats) = unclaim-keeps r w in
      let (files', waits', claims', found) =
        lost_found-lost r j (lookup r given.browsers) given refl in
      (
        files' ∙ files,
        waits' ∙ waits,
        ap (lookup j) (claims' ∙ claims) ∙ lookup-remove r j w.claimed,
        found ∙ ap (λ m. if text_eq r j then none else lookup j m) browsers,
      )

  pub lost_roots-LostAt :
      (roots : List Text) (j : Text) (w : World Doc)
      → LostAt (any (λ r. text_eq r j) roots) j w (lost_roots roots w).0
  unfolding lost_roots
  lost_roots-LostAt [] j w = (refl, refl, refl, refl)
  lost_roots-LostAt (r ∷ roots) j w =
      LostAt-trans (text_eq r j) (any (λ x. text_eq x j) roots) j w (lost_root r w).0
        (lost_roots roots (lost_root r w).0).0 (lost_root-LostAt r j w)
        (lost_roots-LostAt roots j (lost_root r w).0)

module _ {Doc : Type 0} (host : Host Doc) where
  pub close_browser-keeps :
      (b : SharedBrowser) (w : World Doc)
      → ((close_browser b w).claimed ≡ w.claimed)
        × ((close_browser b w).owner_files ≡ w.owner_files)
        × ((close_browser b w).browsers ≡ w.browsers)
  unfolding close_browser
  close_browser-keeps b w =
      if-cases
        (λ (u : World Doc).
          (u.claimed ≡ w.claimed) × (u.owner_files ≡ w.owner_files) × (u.browsers ≡ w.browsers))
        b.attached (λ foreign. (refl, refl, refl)) (λ own. (refl, refl, refl))

  close_one-ClosedBut :
      (c : Closing) (j : Text) (w : World Doc)
      → text_eq c.root j ≡ false
      → ClosedBut j w (close_one host c w)
  unfolding close_one
  close_one-ClosedBut c j w other =
      let closed : World Doc = forget_browser_record c.root (close_browser c.browser w) in
      let (claims, files, browsers) = close_browser-keeps c.browser w in
      let (claims', files') = release_claim-ClosedBut host c.root j closed other in
      (claims' ∙ ap (lookup j) claims, files' ∙ ap (lookup j) files)

  close_one-browsers : (c : Closing) (w : World Doc) → (close_one host c w).browsers ≡ w.browsers
  unfolding close_one
  close_one-browsers c w =
      release_claim-browsers host c.root (forget_browser_record c.root (close_browser c.browser w))
      ∙ (close_browser-keeps c.browser w).2

  pub close_all-browsers :
      (cs : List Closing) (w : World Doc) → (close_all host cs w).browsers ≡ w.browsers
  unfolding close_all
  close_all-browsers [] w = refl
  close_all-browsers (c ∷ cs) w =
      close_all-browsers cs (close_one host c w) ∙ close_one-browsers c w

  pub close_all-ClosedBut :
      (cs : List Closing) (j : Text) (w : World Doc)
      → All (λ c. text_eq c.root j ≡ false) cs
      → ClosedBut j w (close_all host cs w)
  unfolding close_all
  close_all-ClosedBut [] j w others = (refl, refl)
  close_all-ClosedBut (c ∷ cs) j w (other, others) =
      let (claims, files) = close_one-ClosedBut c j w other in
      let (claims', files') = close_all-ClosedBut cs j (close_one host c w) others in
      (claims' ∙ claims, files' ∙ files)
