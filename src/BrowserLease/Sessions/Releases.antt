-- ===== src/BrowserLease/Sessions/Releases.antt =====
-- Who may end a session: `release_owned` of crates/agentplug-host/src/browser_lease.rs.
use agentplug.Base.{
  ℕ, true, false, List, Option, none, some, String, if◌then◌else◌, ◌≡◌, ◌⊎◌, refl, inl, inr, ap,
  subst, ◌∙◌,
}
use agentplug.Base.Tests.{Bool-cases}
use agentplug.Base.Maps.{Text, text_key, text_eq, text_eq_iff, lookup, lookup-insert}
use agentplug.BrowserLease.{SharedBrowser, World, Host, read_holder}
use agentplug.BrowserLease.Claim.{release_claim}
use agentplug.BrowserLease.Claim.Releasing.{
  Released, release_claim-Released, release_claim-browsers, ClosedBut, release_claim-ClosedBut,
}
use agentplug.BrowserLease.Heartbeat.Keeping.{same_lookup}
use agentplug.BrowserLease.Browsers.{write_browser_record}
use agentplug.BrowserLease.Sessions.{
  without_agent, release_found, release, release_owned, owned_by_agent,
}

module _ {Doc : Type 0} (host : Host Doc) (root : Text) (agent : String) (now : ℕ) where
  -- The browser after its agent left, if there is one.
  pub idled : Option SharedBrowser → Option SharedBrowser
  unfolding without_agent
  idled none = none
  idled (some b) = some (without_agent agent now b)

  -- What a release by the holder leaves at any root.
  pub record ReleasedAt (j : Text) (w u : World Doc) : Type 0 where
    pub released : Released host root u
    pub browsers_at :
        lookup j u.browsers
        ≡ (if text_eq root j then idled (lookup j w.browsers) else lookup j w.browsers)
    pub others_at : (text_eq root j ≡ true) ⊎ ClosedBut j w u

  release_found-at :
      (j : Text) (o : Option SharedBrowser) (w : World Doc)
      → lookup root w.browsers ≡ o
      → (lookup j (release_found host root agent now o w).browsers
          ≡ (if text_eq root j then idled o else lookup j w.browsers))
        × ((release_found host root agent now o w).claimed ≡ w.claimed)
        × ((release_found host root agent now o w).owner_files ≡ w.owner_files)
  unfolding release_found idled without_agent write_browser_record
  release_found-at j none w gone = (
    subst (λ o. lookup j w.browsers ≡ (if text_eq root j then o else lookup j w.browsers)) gone
        (same_lookup root j w.browsers),
    refl,
    refl,
  )
  release_found-at j (some b) w there =
      (lookup-insert root j (without_agent agent now b) w.browsers, refl, refl)

  idled_same :
      (j : Text) (m : List (Text × SharedBrowser))
      → (if text_eq root j then idled (lookup root m) else lookup j m)
        ≡ (if text_eq root j then idled (lookup j m) else lookup j m)
  idled_same j m = elim (Bool-cases (text_eq root j)) [
    | inl same ↦ rw (same, (text_eq_iff root j).0 same) refl
    | inr other ↦ rw other refl
  ]

  release-ReleasedAt : (j : Text) (w : World Doc) → ReleasedAt j w (release host root agent now w)
  unfolding release
  release-ReleasedAt j w =
      let left : World Doc = release_found host root agent now (lookup root w.browsers) w in
      let (found, claims, files) = release_found-at j (lookup root w.browsers) w refl in
      let others : (text_eq root j ≡ true) ⊎ ClosedBut j w (release_claim host root left) =
        elim (Bool-cases (text_eq root j)) [
          | inl same ↦ inl same
          | inr other ↦
              let (claims', files') = release_claim-ClosedBut host root j left other in
              inr (claims' ∙ ap (lookup j) claims, files' ∙ ap (lookup j) files)
        ] in
      record {
        released = release_claim-Released host root left;
        browsers_at =
            ap (lookup j) (release_claim-browsers host root left) ∙ found ∙ idled_same j w.browsers;
        others_at = others;
      }

  -- A release by the agent that the owner file names takes its claim, its owner file and its place on the
  -- browser, and touches no other root; a release by any other agent changes nothing.
  pub release_owned-ReleasedAt :
      (j : Text) (w : World Doc)
      → ((owned_by_agent agent (read_holder host root w) ≡ true)
          × ReleasedAt j w (release_owned host root agent now w))
        ⊎ ((owned_by_agent agent (read_holder host root w) ≡ false)
            × (release_owned host root agent now w ≡ w))
  unfolding release_owned
  release_owned-ReleasedAt j w =
      elim (Bool-cases (owned_by_agent agent (read_holder host root w))) [
        | inl owner ↦ rw (owner, release_owned) (inl (refl, release-ReleasedAt j w))
        | inr other ↦ rw (other, release_owned) (inr (refl, refl))
      ]
