-- ===== src/BrowserLease/Claim/Waiting.antt =====
-- The wait for the lease: the loop of `claim_session` of crates/agentplug-host/src/browser_lease.rs.
use agentplug.Base.{
  ℕ, leb, Bool, true, false, List, [], ◌∷◌, ◌++◌, String, if◌then◌else◌, ◌≡◌, ◌≢◌, refl,
}
use agentplug.Base.Tests.{if-cases}
use agentplug.Base.Maps.{Text, text_key, lookup}
use agentplug.BrowserLease.{LeaseHolder, World, Host, is_some, new_holder, read_holder, holder_live}
use agentplug.BrowserLease.Claim.{
  Round, Outcome, held_by_other, waiting, create_claim, look_at_holder, claim_loop, prior_ttl,
}

module _ {Doc : Type 0} (host : Host Doc) (root : Text) (owner : String) (ttl : ℕ) where
  -- A wait that only looks: the world is what others make of it, until the deadline is seen.
  pub watch : ℕ → List (Round Doc) → World Doc → World Doc × Outcome
  watch deadline [] w = (w, waiting)
  watch deadline (round ∷ rounds) w =
      let later = watch deadline rounds (round.before w) in
      if leb deadline round.now then (round.before w, held_by_other) else later

  -- At each turn the owner file is there and its holder is live.
  abbrev pub LiveThroughout : List (Round Doc) → World Doc → Type 0
  LiveThroughout [] w = Unit
  LiveThroughout (round ∷ rounds) w =
      (is_some (lookup root (round.before w).owner_files) ≡ true)
      × (holder_live host root (prior_ttl ttl (read_holder host root (round.before w))) round.now
            (round.before w)
          ≡ true)
      × LiveThroughout rounds (round.before w)

  look_at_holder-live :
      (round : Round Doc) (w : World Doc)
      → holder_live host root (prior_ttl ttl (read_holder host root w)) round.now w ≡ true
      → look_at_holder host root ttl round w ≡ (w, true)
  unfolding look_at_holder
  look_at_holder-live round w live = rw live refl

  pub create_claim-taken :
      (holder : LeaseHolder) (now : ℕ) (w : World Doc)
      → is_some (lookup root w.owner_files) ≡ true
      → create_claim host root holder now w ≡ (w, false)
  unfolding create_claim
  create_claim-taken holder now w there = rw there refl

  -- While the holder is live at every turn, a waiting claim does nothing but look: it takes no claim, ends
  -- no process, removes no file and changes no map, and ends refused once the deadline is seen.
  pub claim_loop-watch :
      (deadline : ℕ) (rounds : List (Round Doc)) (w : World Doc)
      → LiveThroughout rounds w
      → claim_loop host root owner ttl deadline rounds w ≡ watch deadline rounds w
  unfolding claim_loop watch
  claim_loop-watch deadline [] w live = refl
  claim_loop-watch deadline (round ∷ rounds) w (there, live, rest) =
      rw
        (
          create_claim-taken (new_holder host owner ttl round.now) round.now (round.before w) there,
          look_at_holder-live round (round.before w) live,
          claim_loop-watch deadline rounds (round.before w) rest,
        )
        refl

  -- A wait whose clock reaches the deadline ends: with the lease, or refused, or with an error.
  pub claim_loop-ends :
      (deadline : ℕ) (rounds : List (Round Doc)) (last : Round Doc) (w : World Doc)
      → leb deadline last.now ≡ true
      → (claim_loop host root owner ttl deadline (rounds ++ last ∷ []) w).1 ≢ waiting
  unfolding claim_loop
  claim_loop-ends deadline [] last w over = rw over (
      if-cases (λ (o : World Doc × Outcome). o.1 ≢ waiting)
        (create_claim host root (new_holder host owner ttl last.now) last.now (last.before w)).1
        (λ yes e. cc) (λ no e. cc))
  claim_loop-ends deadline (round ∷ rounds) last w over =
      let tried : World Doc × Bool =
        create_claim host root (new_holder host owner ttl round.now) round.now (round.before w) in
      let looked : World Doc × Bool = look_at_holder host root ttl round tried.0 in
      let Ended : World Doc × Outcome → Type 0 = λ (o : World Doc × Outcome). o.1 ≢ waiting in
      if-cases Ended tried.1 (λ yes e. cc)
        (λ no.
          if-cases Ended (leb deadline round.now) (λ yes e. cc)
            (λ no.
              if-cases Ended looked.1 (λ yes. claim_loop-ends deadline rounds last looked.0 over)
                (λ no e. cc)))
