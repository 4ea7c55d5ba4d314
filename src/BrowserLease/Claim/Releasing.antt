-- ===== src/BrowserLease/Claim/Releasing.antt =====
-- Giving the lease up: `release_claim` of crates/agentplug-host/src/browser_lease.rs.
use agentplug.Base.{
  ℕ, Bool, true, false, Option, none, some, if◌then◌else◌, ◌≡◌, refl, ap, ◌∙◌, ◌⊎◌, inl, inr, not,
  ◌==◌, leb, ◌++◌, ◌∷◌, [],
}
use agentplug.Base.Tests.{if-cases, Bool-cases}
use agentplug.Base.Maps.{Text, text_key, text_eq, lookup, remove, lookup-remove}
use agentplug.BrowserLease.{LeaseHolder, reap, World, Host, claim_is_ours, read_holder}
use agentplug.BrowserLease.Heartbeat.{unclaim}
use agentplug.BrowserLease.Claim.{kill, release_claim, released, release_session, take_file}
use agentplug.BrowserLease.Heartbeat.Keeping.{unclaim-keeps, lookup-gone}

module _ {Doc : Type 0} (host : Host Doc) (root : Text) where
  -- The process has no claim of the root, and the owner file is not its own.
  abbrev pub Released : World Doc → Type 0
  Released w = (lookup root w.claimed ≡ none) × (claim_is_ours host root w ≡ false)

  gone-claim :
      (w : World Doc) → lookup root w.owner_files ≡ none → claim_is_ours host root w ≡ false
  unfolding claim_is_ours read_holder
  gone-claim w gone = rw gone refl

  pub release_claim-Released : (w : World Doc) → Released (release_claim host root w)
  unfolding release_claim
  release_claim-Released w =
      let given : World Doc = unclaim root w in
      let gone : lookup root given.claimed ≡ none =
        ap (lookup root) (unclaim-keeps root w).0 ∙ lookup-gone root w.claimed in
      if-cases Released (claim_is_ours host root given)
        (λ ours. (gone, gone-claim (take_file root given) (lookup-gone root given.owner_files)))
        (λ other. (gone, other))

module _ {Doc : Type 0} where
  -- What gives a root's lease up takes no claim and no owner file of another root.
  abbrev pub ClosedBut : Text → World Doc → World Doc → Type 0
  ClosedBut j w u =
      (lookup j u.claimed ≡ lookup j w.claimed) × (lookup j u.owner_files ≡ lookup j w.owner_files)

module _ {Doc : Type 0} (host : Host Doc) where
  released-browsers :
      (r : Text) (o : Option LeaseHolder) (w : World Doc)
      → (released host r o w).browsers ≡ w.browsers
  unfolding released kill
  released-browsers r none w = refl
  released-browsers r (some holder) w =
      if-cases (λ (u : World Doc). u.browsers ≡ w.browsers) (not (holder.pid == host.pid))
        (λ other. refl)
        (λ own.
          if-cases (λ (u : World Doc). u.browsers ≡ w.browsers) (leb holder.browser_pid 1)
            (λ low. refl) (λ high. refl))

  pub release_claim-browsers :
      (r : Text) (w : World Doc) → (release_claim host r w).browsers ≡ w.browsers
  unfolding release_claim
  release_claim-browsers r w =
      if-cases (λ (u : World Doc). u.browsers ≡ w.browsers) (claim_is_ours host r (unclaim r w))
        (λ ours. (unclaim-keeps r w).2) (λ other. (unclaim-keeps r w).2)

  pub release_session-browsers :
      (r : Text) (w : World Doc) → (release_session host r w).browsers ≡ w.browsers
  unfolding release_session
  release_session-browsers r w =
      released-browsers r (read_holder host r (unclaim r w)) (unclaim r w) ∙ (unclaim-keeps r w).2

  pub release_claim-ClosedBut :
      (r j : Text) (w : World Doc) → text_eq r j ≡ false → ClosedBut j w (release_claim host r w)
  unfolding release_claim
  release_claim-ClosedBut r j w other =
      let (claims, files, browsers, waits, beats) = unclaim-keeps r w in
      let claimed_same : lookup j (unclaim r w).claimed ≡ lookup j w.claimed =
        ap (lookup j) claims ∙ rw other at (lookup-remove r j w.claimed) in
      if-cases (ClosedBut j w) (claim_is_ours host r (unclaim r w))
        (λ ours. (
          claimed_same,
          rw other at (lookup-remove r j (unclaim r w).owner_files) ∙ ap (lookup j) files,
        ))
        (λ foreign. (claimed_same, ap (lookup j) files))

false_of_not : (a : Bool) → not a ≡ true → a ≡ false
false_of_not true h = absurd (cc h)
false_of_not false h = refl

module _ {Doc : Type 0} where
  pub kill-keeps :
      (pid : ℕ) (w : World Doc)
      → ((kill pid w).owner_files ≡ w.owner_files) × ((kill pid w).claimed ≡ w.claimed)
  unfolding kill
  kill-keeps pid w =
      if-cases (λ (u : World Doc). (u.owner_files ≡ w.owner_files) × (u.claimed ≡ w.claimed))
        (leb pid 1) (λ low. (refl, refl)) (λ high. (refl, refl))

  -- A root's owner file is as it was, or gone.
  abbrev pub LosesFile : Text → World Doc → World Doc → Type 0
  LosesFile j w u =
      (lookup j u.owner_files ≡ lookup j w.owner_files) ⊎ (lookup j u.owner_files ≡ none)

  removed-LosesFile :
      (r j : Text) (w u : World Doc) → u.owner_files ≡ remove r w.owner_files → LosesFile j w u
  removed-LosesFile r j w u removed = elim (Bool-cases (text_eq r j)) [
    | inl same ↦ inr (ap (lookup j) removed ∙ (rw same at (lookup-remove r j w.owner_files)))
    | inr other ↦ inl (ap (lookup j) removed ∙ (rw other at (lookup-remove r j w.owner_files)))
  ]

module _ {Doc : Type 0} (host : Host Doc) where
  -- What a session's release leaves at any root: its owner file as it was, or gone.
  SessionEnd : Text → Text → World Doc → World Doc → Type 0
  SessionEnd r j g u = LosesFile j g u × (u.claimed ≡ g.claimed) × (claim_is_ours host r u ≡ false)

  released-SessionEnd :
      (r j : Text) (o : Option LeaseHolder) (g : World Doc)
      → read_holder host r g ≡ o
      → SessionEnd r j g (released host r o g)
  unfolding released SessionEnd claim_is_ours
  released-SessionEnd r j none g e = (inl refl, refl, rw e refl)
  released-SessionEnd r j (some h) g e =
      let killed : World Doc = kill h.browser_pid g in
      let (files, claims) = kill-keeps h.browser_pid g in
      if-cases (SessionEnd r j g) (not (h.pid == host.pid))
        (λ other. (inl refl, refl, rw e (false_of_not (h.pid == host.pid) other)))
        (λ ours.
          let u : World Doc =
            take_file r (record killed { effects = killed.effects ++ reap r ∷ [] }) in
          (
            removed-LosesFile r j g u (ap (remove r) files),
            claims,
            gone-claim host r u (lookup-gone r killed.owner_files),
          ))

  pub release_session-at :
      (r j : Text) (w : World Doc)
      → LosesFile j w (release_session host r w)
        × (lookup j (release_session host r w).claimed
            ≡ (if text_eq r j then none else lookup j w.claimed))
        × (claim_is_ours host r (release_session host r w) ≡ false)
  unfolding release_session SessionEnd
  release_session-at r j w =
      let given : World Doc = unclaim r w in
      let (taken, files, browsers, waits, beats) = unclaim-keeps r w in
      let (loses, claims, other) = released-SessionEnd r j (read_holder host r given) given refl in
      (
        elim loses [ inl kept ↦ inl (kept ∙ ap (lookup j) files) | inr gone ↦ inr gone ],
        ap (lookup j) (claims ∙ taken) ∙ lookup-remove r j w.claimed,
        other,
      )
