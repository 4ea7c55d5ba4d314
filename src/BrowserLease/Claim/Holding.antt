-- ===== src/BrowserLease/Claim/Holding.antt =====
-- What a process holds once `claim_session` answers with a holder: crates/agentplug-host/src/browser_lease.rs.
use agentplug.Base.{
  ℕ, ◌+◌, ◌^◌, ◌<◌, leb, Bool, true, List, [], ◌∷◌, none, some, String, str_eq, ◌≡◌, ◌≢◌, refl, inl,
  inr, ◌⊎◌, ap, subst, eq_iff,
}
use agentplug.Base.{arith}
use agentplug.Base.Tests.{Bool-cases, Option-cases, if-cases, ==_iff}
use agentplug.Base.Maps.{Text, text_key, lookup, insert}
use agentplug.BrowserLease.{
  LeaseHolder, World, Host, is_some, new_holder, read_holder, claim_is_ours, effective_ttl,
}
use agentplug.BrowserLease.Holder.{Fits, Printed, text_eq-same, read_holder-write_holder}
use agentplug.BrowserLease.Heartbeat.Keeping.{
  lookup-same, lookup-gone, start_heartbeat-keeps, unclaim-keeps,
}
use agentplug.BrowserLease.Heartbeat.{attend, start_heartbeat, unclaim}
use agentplug.BrowserLease.Claim.{
  Round, Outcome, holding, create_claim, look_at_holder, claim_loop, took, claim_session, drop_lost,
  mine,
}

holding-injective : {g h : LeaseHolder} → holding g ≡ holding h → g ≡ h
holding-injective same = cc

effective_ttl-IsPos : (ttl : ℕ) → 0 < effective_ttl ttl
unfolding effective_ttl
effective_ttl-IsPos ttl = ground arith

module _ {Doc : Type 0} (host : Host Doc) where
  pub new_holder-Fits :
      (owner : String) (ttl now : ℕ)
      → host.pid < 2 ^ 32
      → 0 < ttl
      → Fits (new_holder host owner ttl now)
  new_holder-Fits owner ttl now pid_fits pos = record {
    pid_fits = pid_fits;
    browser_pid_fits = omega arith;
    port_fits = omega arith;
    ttl_some = pos;
  }

module _ {Doc : Type 0} (host : Host Doc) (root : Text) where
  -- The lease is held by an owner: its holder stands in the owner file with this process's id, the process
  -- has the claim, a heartbeat's thread runs, and the lease was attended at a time.
  pub record Holds (owner : String) (since : ℕ) (h : LeaseHolder) (w : World Doc) : Type 0 where
    pub held : read_holder host root w ≡ some h
    pub ours : h.pid ≡ host.pid
    pub owned : h.owner ≡ owner
    pub has_claim : is_some (lookup root w.claimed) ≡ true
    pub beating : is_some (lookup root w.heartbeats) ≡ true
    pub last : lookup root w.attended ≡ some since

  kept-holder :
      (w u : World Doc)
      → u.owner_files ≡ w.owner_files
      → read_holder host root u ≡ read_holder host root w
  unfolding read_holder
  kept-holder w u same = rw same refl

  started-Holds :
      (owner : String) (now : ℕ) (h : LeaseHolder) (w : World Doc)
      → read_holder host root w ≡ some h
      → h.pid ≡ host.pid
      → h.owner ≡ owner
      → is_some (lookup root w.claimed) ≡ true
      → Holds owner now h (start_heartbeat root (attend root now w))
  unfolding attend
  started-Holds owner now h w held ours owned has_claim =
      let seen : World Doc = attend root now w in
      let (files, claims, times, beating) = start_heartbeat-keeps root seen in
      record {
        held = rw (kept-holder w (start_heartbeat root seen) files) held;
        ours = ours;
        owned = owned;
        has_claim = rw claims has_claim;
        beating = beating;
        last = rw (times, lookup-same root now w.attended) refl;
      }

  read_holder-create_claim :
      (h : LeaseHolder) (now : ℕ) (w : World Doc)
      → Printed host
      → Fits h
      → (create_claim host root h now w).1 ≡ true
      → read_holder host root (create_claim host root h now w).0 ≡ some h
  unfolding create_claim
  read_holder-create_claim h now w printed fits =
      elim (Bool-cases (is_some (lookup root w.owner_files))) [
        | inl there ↦ rw there (λ e. cc)
        | inr free ↦ rw free (λ e.
            rw (read_holder-write_holder host root root h now w printed fits, text_eq-same root)
              refl)
      ]

  HoldsIf : String → World Doc × Outcome → Type 0
  HoldsIf owner o = (h : LeaseHolder) → o.1 ≡ holding h → (since : ℕ) × Holds owner since h o.0

  pub took-Holds :
      (owner : String) (ttl now : ℕ) (w : World Doc)
      → host.pid < 2 ^ 32
      → 0 < ttl
      → Printed host
      → (create_claim host root (new_holder host owner ttl now) now w).1 ≡ true
      → Holds owner now
          (new_holder host owner ttl now)
          (took root now (create_claim host root (new_holder host owner ttl now) now w).0)
  unfolding took
  took-Holds owner ttl now w pid_fits pos printed created =
      let tried : World Doc = (create_claim host root (new_holder host owner ttl now) now w).0 in
      let claimed_now : World Doc = record tried { claimed = insert root tt tried.claimed } in
      let fits : Fits (new_holder host owner ttl now) =
        new_holder-Fits host owner ttl now pid_fits pos in
      started-Holds owner now (new_holder host owner ttl now) claimed_now
        (rw (kept-holder tried claimed_now refl)
          (read_holder-create_claim (new_holder host owner ttl now) now w printed fits created))
        refl refl (ap is_some (lookup-same root tt tried.claimed))

  took-HoldsIf :
      (owner : String) (ttl now : ℕ) (w : World Doc)
      → host.pid < 2 ^ 32
      → 0 < ttl
      → Printed host
      → (create_claim host root (new_holder host owner ttl now) now w).1 ≡ true
      → HoldsIf owner (
        took root now (create_claim host root (new_holder host owner ttl now) now w).0,
        holding (new_holder host owner ttl now),
      )
  unfolding HoldsIf
  took-HoldsIf owner ttl now w pid_fits pos printed created h same =
      let tried : World Doc = (create_claim host root (new_holder host owner ttl now) now w).0 in
      subst (λ x. (since : ℕ) × Holds owner since x (took root now tried)) (holding-injective same)
        (now, took-Holds owner ttl now w pid_fits pos printed created)

  claim_loop-HoldsIf :
      (owner : String) (ttl deadline : ℕ) (rounds : List (Round Doc)) (w : World Doc)
      → host.pid < 2 ^ 32
      → 0 < ttl
      → Printed host
      → HoldsIf owner (claim_loop host root owner ttl deadline rounds w)
  unfolding claim_loop HoldsIf
  claim_loop-HoldsIf owner ttl deadline [] w pid_fits pos printed = λ h same. cc
  claim_loop-HoldsIf owner ttl deadline (round ∷ rounds) w pid_fits pos printed =
      let tried : World Doc × Bool =
        create_claim host root (new_holder host owner ttl round.now) round.now (round.before w) in
      let looked : World Doc × Bool = look_at_holder host root ttl round tried.0 in
      if-cases (HoldsIf owner) tried.1
        (took-HoldsIf owner ttl round.now (round.before w) pid_fits pos printed)
        (λ no.
          if-cases (HoldsIf owner) (leb deadline round.now) (λ yes h e. cc)
            (λ no.
              if-cases (HoldsIf owner) looked.1
                (λ yes. claim_loop-HoldsIf owner ttl deadline rounds looked.0 pid_fits pos printed)
                (λ no h e. cc)))

  pid_of_ours :
      (h : LeaseHolder) (w : World Doc)
      → read_holder host root w ≡ some h
      → claim_is_ours host root w ≡ true
      → h.pid ≡ host.pid
  unfolding claim_is_ours
  pid_of_ours h w held ours = (==_iff h.pid host.pid).0 (rw (held, claim_is_ours) at ours)

  mine-cases :
      (owner : String) (w : World Doc)
      → (mine host root owner w ≡ none)
        ⊎ ((h : LeaseHolder) × (mine host root owner w ≡ some h)
            × (is_some (lookup root w.claimed) ≡ true)
            × (read_holder host root w ≡ some h)
            × (h.owner ≡ owner))
  unfolding mine
  mine-cases owner w = elim (Bool-cases (is_some (lookup root w.claimed))) [
    | inr free ↦ rw (free, mine) (inl refl)
    | inl taken ↦ elim (Option-cases (read_holder host root w)) [
      | inl gone ↦ rw (gone, mine) (rw taken (inl refl))
      | inr (h, held) ↦ elim (Bool-cases (str_eq h.owner owner)) [
        | inr other ↦ rw (held, mine) (rw (taken, other) (inl refl))
        | inl same ↦
            inr (
              h,
              rw (held, mine) (rw (taken, same) refl),
              taken,
              held,
              (eq_iff h.owner owner).0 same,
            )
      ]
    ]
  ]

  -- `drop_lost` leaves a claim only to the process whose id is in the owner file.
  drop_lost-ours :
      (w : World Doc)
      → is_some (lookup root (drop_lost host root w).claimed) ≡ true
      → claim_is_ours host root (drop_lost host root w) ≡ true
  unfolding drop_lost
  drop_lost-ours w =
      let not_claimed : is_some (lookup root (unclaim root w).claimed) ≢ true =
        rw ((unclaim-keeps root w).0, lookup-gone root w.claimed) (λ e. cc) in
      elim (Bool-cases (is_some (lookup root w.claimed))) [
        | inr free ↦ rw (free, drop_lost) (λ e. cc)
        | inl taken ↦ elim (Bool-cases (claim_is_ours host root w)) [
          | inl ours ↦ rw (taken, drop_lost) (rw ours (λ e. ours))
          | inr lost ↦ rw (taken, drop_lost) (rw lost (λ still. absurd (not_claimed still)))
        ]
      ]

  -- When `claim_session` answers with a holder, whatever others did while it waited, this holder is the
  -- caller's: it stands in the owner file with the caller's name and this process's id, the process has
  -- the claim and has attended the lease, and a heartbeat's thread keeps it.
  pub claim_session-Holds :
      (owner : String) (ttl_ms wait_ms start : ℕ) (rounds : List (Round Doc)) (w : World Doc)
      (h : LeaseHolder)
      → host.pid < 2 ^ 32
      → Printed host
      → (claim_session host root owner ttl_ms wait_ms start rounds w).1 ≡ holding h
      → (since : ℕ) × Holds owner since h
          (claim_session host root owner ttl_ms wait_ms start rounds w).0
  unfolding claim_session HoldsIf
  claim_session-Holds owner ttl_ms wait_ms start rounds w h pid_fits printed =
      let seen : World Doc = drop_lost host root w in
      elim (mine-cases owner seen) [
        | inl other ↦
            rw (other, mine, claim_session)
              (claim_loop-HoldsIf owner (effective_ttl ttl_ms) (start + wait_ms) rounds seen
                pid_fits (effective_ttl-IsPos ttl_ms) printed h)
        | inr (own, found, taken, held, owned) ↦
            rw (found, mine, claim_session)
              (λ same.
                subst
                  (λ x.
                    (since : ℕ) × Holds owner since x
                      (start_heartbeat root (attend root start seen)))
                  (holding-injective same)
                  (
                    start,
                    started-Holds owner start own seen held
                        (pid_of_ours own seen held (drop_lost-ours w taken)) owned taken,
                  ))
      ]
