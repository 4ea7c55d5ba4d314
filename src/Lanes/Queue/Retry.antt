-- ===== src/Lanes/Queue/Retry.antt =====
-- What becomes of the place of a request that gave up and comes again.
use agentplug.Base.{
  ℕ, ◌-◌, ◌<◌, ◌≡◌, refl, ◌≢◌, ltb, true, false, List, [], ◌∷◌, ◌++◌, some, keep, All, arith,
}
use agentplug.Lanes.Queue.{
  same_identity, LaneWaiter, resumes, resume, retain_recent, Claim, enqueue, claim_place,
  deactivate, lane_ticket_ttl_ms,
}

-- The retry of a request.
module _ (front back : List LaneWaiter) (mine : LaneWaiter) (claim : Claim) (now next_token : ℕ)
    (own : All (λ e. e.token ≢ mine.token) front)
    (first : All (λ e. resumes claim.identity e ≡ false) front)
    (same : same_identity mine.identity claim.identity ≡ true)
    (recent : All (λ e. now - e.last_seen_ms < 600_000) (front ++ (mine ∷ back))) where
  deactivate-append :
      (es : List LaneWaiter)
      → All (λ e. e.token ≢ mine.token) es
      → deactivate mine.token (es ++ (mine ∷ back)) ≡ es ++ (record mine { active = false } ∷ back)
  unfolding deactivate
  deactivate-append [] h = ground arith
  deactivate-append (e ∷ es) h = ground (arith, deactivate-append es h.1)

  keep-recent :
      (es : List LaneWaiter)
      → All (λ e. now - e.last_seen_ms < 600_000) es
      → keep (λ e. ltb (now - e.last_seen_ms) lane_ticket_ttl_ms) es ≡ es
  keep-recent [] h = refl
  keep-recent (e ∷ es) h = ground (arith, keep-recent es h.1)

  retain-recent :
      (es : List LaneWaiter)
      → All (λ e. now - e.last_seen_ms < 600_000) (es ++ (mine ∷ back))
      → retain_recent now (es ++ (record mine { active = false } ∷ back))
        ≡ es ++ (record mine { active = false } ∷ back)
  unfolding retain_recent
  retain-recent [] h = ground (arith, keep-recent back h.1)
  retain-recent (e ∷ es) h = ground (arith, retain-recent es h.1)

  abbrev resumed : LaneWaiter
  resumed = record mine { last_seen_ms = now; task = claim.task; active = true }

  resume-append :
      (es : List LaneWaiter)
      → All (λ e. resumes claim.identity e ≡ false) es
      → resume now claim.task claim.identity (es ++ (record mine { active = false } ∷ back))
        ≡ some (es ++ (resumed ∷ back), mine.token)
  unfolding resume
  resume-append [] h = ground arith
  resume-append (e ∷ es) h = ground (arith, resume-append es h.1)

  -- A request that gave up and comes again, while every place of the queue was seen within ten minutes and
  -- no place before its own is an inactive one of the same request, takes its old place up again, under its
  -- old token, and no other place moves.
  pub retry_keeps_place :
      claim_place (deactivate mine.token (front ++ (mine ∷ back))) claim now next_token
      ≡ (front ++ (resumed ∷ back), mine.token, next_token)
  unfolding claim_place enqueue
  retry_keeps_place =
      rw (deactivate-append front own, retain-recent front recent, resume-append front first) refl
