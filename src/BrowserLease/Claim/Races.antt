-- ===== src/BrowserLease/Claim/Races.antt =====
-- Waiting claims of several processes on one owner file: `evict_stale_holder` and `create_claim` of
-- crates/agentplug-host/src/browser_lease.rs, which look at the file, remove it and create it in calls
-- of the file system of their own.
use agentplug.Base.{
  ℕ, ◌+◌, ◌^◌, ◌<◌, leb, true, false, List, ◌∷◌, Option, none, String, ◌≡◌, refl, subst, ap, inl,
  inr,
}
use agentplug.Base.{arith}
use agentplug.Base.Tests.{Bool-cases}
use agentplug.Base.Maps.{Text, text_key, lookup}
use agentplug.BrowserLease.{
  LeaseHolder, World, Host, is_some, new_holder, read_holder, write_holder, holder_live,
}
use agentplug.BrowserLease.Holder.{Fits, Printed, holder_live-write_holder}
use agentplug.BrowserLease.Claim.{
  Round, Outcome, holding, create_claim, evict_stale_holder, kill_holder, kill, look_at_holder,
  claim_loop, prior_ttl, took,
}
use agentplug.BrowserLease.Heartbeat.Keeping.{lookup-gone}
use agentplug.BrowserLease.Claim.Holding.{Holds, new_holder-Fits, took-Holds}
use agentplug.BrowserLease.Claim.Waiting.{create_claim-taken}
use agentplug.BrowserLease.Heartbeat.Expiry.{not_due}

not_over : (deadline now : ℕ) → now < deadline → leb deadline now ≡ false
not_over deadline now early = ground arith

module _ {Doc : Type 0} where
  kill-files : (pid : ℕ) (w : World Doc) → (kill pid w).owner_files ≡ w.owner_files
  unfolding kill
  kill-files pid w = elim (Bool-cases (leb pid 1)) [
    | inl low ↦ rw (low, kill) refl
    | inr high ↦ rw (high, kill) refl
  ]

module _ {Doc : Type 0} (host : Host Doc) (root : Text) where
  -- An eviction removes the owner file, whoever's it is by then.
  evict_stale_holder-removes :
      (prior : Option LeaseHolder) (w : World Doc)
      → lookup root (evict_stale_holder host root prior true w).0.owner_files ≡ none
  unfolding evict_stale_holder
  evict_stale_holder-removes prior w = lookup-gone root (kill_holder host prior w).owner_files

  create_claim-free :
      (holder : LeaseHolder) (now : ℕ) (w : World Doc)
      → lookup root w.owner_files ≡ none
      → create_claim host root holder now w ≡ (write_holder host root holder now w, true)
  unfolding create_claim
  create_claim-free holder now w free = rw (free, create_claim) refl

  look_at_holder-stale :
      (ttl : ℕ) (round : Round Doc) (w : World Doc)
      → holder_live host root (prior_ttl ttl (read_holder host root w)) round.now w ≡ false
      → round.reaped ≡ true
      → look_at_holder host root ttl round w
        ≡ ((evict_stale_holder host root (read_holder host root w) true w).0, true)
  unfolding look_at_holder evict_stale_holder
  look_at_holder-stale ttl round w stale reaped = rw (stale, reaped, look_at_holder) refl

  -- The wait ended with the lease: the holder that it answers with stands in the owner file, the process has
  -- the claim and a heartbeat, and the lease was attended at the time of the turn.
  abbrev pub Takes : String → ℕ → LeaseHolder → World Doc × Outcome → Type 0
  Takes owner now holder (w, outcome) =
      Holds host root owner now holder w × (outcome ≡ holding holder)

  took-free :
      (owner : String) (ttl now : ℕ) (w : World Doc)
      → Printed host
      → host.pid < 2 ^ 32
      → 0 < ttl
      → lookup root w.owner_files ≡ none
      → Holds host root owner now
          (new_holder host owner ttl now)
          (took root now (write_holder host root (new_holder host owner ttl now) now w))
  took-free owner ttl now w printed pid_fits pos free =
      let created = create_claim-free (new_holder host owner ttl now) now w free in
      subst (λ o. Holds host root owner now (new_holder host owner ttl now) (took root now o.0))
        created (took-Holds host root owner ttl now w pid_fits pos printed (ap (λ o. o.1) created))

  -- A turn that sees a stale holder before the deadline and reaps its processes evicts it; when nobody else
  -- creates or changes the owner file before the next turn, the loop ends in that turn with the lease: its
  -- own holder stands in the owner file and is the answer, and its claim and heartbeat are set.
  pub claim_loop-takes_over :
      (owner : String) (ttl deadline : ℕ) (turn next : Round Doc) (rounds : List (Round Doc))
      (w : World Doc)
      → Printed host
      → host.pid < 2 ^ 32
      → 0 < ttl
      → is_some (lookup root (turn.before w).owner_files) ≡ true
      → holder_live host root
          (prior_ttl ttl (read_holder host root (turn.before w)))
          turn.now
          (turn.before w)
        ≡ false
      → turn.now < deadline
      → turn.reaped ≡ true
      → ((u : World Doc) → (next.before u).owner_files ≡ u.owner_files)
      → Takes owner next.now
          (new_holder host owner ttl next.now)
          (claim_loop host root owner ttl deadline (turn ∷ next ∷ rounds) w)
  unfolding claim_loop
  claim_loop-takes_over owner ttl deadline turn next rounds w printed pid_fits pos there stale early
        reaped alone =
      let seen : World Doc = turn.before w in
      let evicted : World Doc =
        (evict_stale_holder host root (read_holder host root seen) true seen).0 in
      let mine : LeaseHolder = new_holder host owner ttl next.now in
      rw
        (
          create_claim-taken host root owner ttl (new_holder host owner ttl turn.now) turn.now seen
              there,
          look_at_holder-stale ttl turn seen stale reaped,
          not_over deadline turn.now early,
          create_claim-free mine next.now (next.before evicted)
              (rw (alone evicted) (evict_stale_holder-removes (read_holder host root seen) seen)),
        )
        (
          took-free owner ttl next.now (next.before evicted) printed pid_fits pos
              (rw (alone evicted) (evict_stale_holder-removes (read_holder host root seen) seen)),
          refl,
        )

module _ {Doc : Type 0} (host : Host Doc) (root : Text) where
  -- Two processes that wait for the same stale holder, both of which looked at it before either acted: the
  -- first evicts it and takes the lease; the second then removes the first one's file, although its holder
  -- is live, and is given the lease as well.
  pub evict_stale_holder-ousts :
      (other : Host Doc) (owner rival : String) (ttl now later : ℕ) (prior : Option LeaseHolder)
      (w : World Doc)
      → Printed host
      → host.pid < 2 ^ 32
      → 0 < ttl
      → later < now + ttl
      → let freed = (evict_stale_holder host root prior true w).0 in
        let (taken, first) = create_claim host root (new_holder host owner ttl now) now freed in
        let ousted = (evict_stale_holder other root prior true taken).0 in
        let second = (create_claim other root (new_holder other rival ttl later) later ousted).1 in
        (first ≡ true) × (holder_live host root ttl later taken ≡ true) × (second ≡ true)
  evict_stale_holder-ousts other owner rival ttl now later prior w printed pid_fits pos soon =
      let freed : World Doc = (evict_stale_holder host root prior true w).0 in
      let mine : LeaseHolder = new_holder host owner ttl now in
      let fits : Fits mine = new_holder-Fits host owner ttl now pid_fits pos in
      rw
        (
          create_claim-free host root mine now freed (evict_stale_holder-removes host root prior w),
          holder_live-write_holder host root mine now later freed printed fits,
          create_claim-free other root (new_holder other rival ttl later) later
              (evict_stale_holder other root prior true (write_holder host root mine now freed)).0
              (evict_stale_holder-removes other root prior (write_holder host root mine now freed)),
        )
        (refl, not_due now later ttl pos soon, refl)
