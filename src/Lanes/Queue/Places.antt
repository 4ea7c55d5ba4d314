-- ===== src/Lanes/Queue/Places.antt =====
-- The places of a lane's queue keep their tokens apart, whatever is done to the queue.
use agentplug.Base.{
  ℕ, ◌≤◌, ◌≡◌, refl, inl, inr, ◌==◌, Bool, true, List, [], ◌∷◌, Option, none, some, String, count,
  count-append, keep, any, arith, Bool-cases,
}
use agentplug.Lanes.Queue.{
  Identity, same_identity, LaneWaiter, behind, resumes, resume, retain_recent, Claim, new_waiter,
  enqueue, claim_place, leave, deactivate, requeue_front,
}

abbrev pub has_token : ℕ → LaneWaiter → Bool
has_token t e = e.token == t

-- Tokens are below the next one, and no two places share one.
pub record IsNumbered (queue : List LaneWaiter) (next_token : ℕ) : Type 0 where
  pub once : (t : ℕ) → count (has_token t) queue ≤ 1
  pub below : (t : ℕ) → next_token ≤ t → count (has_token t) queue ≡ 0

count-keep-le : (p r : LaneWaiter → Bool) (es : List LaneWaiter) → count p (keep r es) ≤ count p es
count-keep-le p r [] = omega arith
count-keep-le p r (e ∷ es) = ground (arith, count-keep-le p r es)

keep-IsNumbered :
    (r : LaneWaiter → Bool) (queue : List LaneWaiter) (next_token : ℕ)
    → IsNumbered queue next_token
    → IsNumbered (keep r queue) next_token
keep-IsNumbered r queue next_token v = record {
  once = λ t. omega (arith, v.once t, count-keep-le (has_token t) r queue);
  below = λ t h. omega (arith, v.below t h, count-keep-le (has_token t) r queue);
}

-- The tokens of a queue that changed in place.
abbrev Renews : List LaneWaiter → Option (List LaneWaiter × ℕ) → Type 0
Renews queue none = Unit {0}
Renews queue (some (queue', token)) =
    ((t : ℕ) → count (has_token t) queue' ≡ count (has_token t) queue)
    × (1 ≤ count (has_token token) queue)

behind-Renews :
    (e : LaneWaiter) (es : List LaneWaiter) (r : Option (List LaneWaiter × ℕ))
    → Renews es r
    → Renews (e ∷ es) (behind e r)
behind-Renews e es none v = tt
behind-Renews e es (some (es', token)) v = (λ t. omega (arith, v.0 t), omega (arith, v.1))

resume-Renews :
    (now : ℕ) (task : String) (identity : Identity) (queue : List LaneWaiter)
    → Renews queue (resume now task identity queue)
unfolding resume
resume-Renews now task identity [] = tt
resume-Renews now task identity (e ∷ es) = elim (Bool-cases (resumes identity e)) [
  | inl found ↦ rw found (λ t. refl, ground arith)
  | inr other ↦
      rw other
        (behind-Renews e es (resume now task identity es) (resume-Renews now task identity es))
]

-- A place in a queue, with the token that it has.
abbrev pub Places : List LaneWaiter × ℕ × ℕ → Type 0
Places (queue, token, next_token) =
    IsNumbered queue next_token × (count (has_token token) queue ≡ 1)

enqueue-Places :
    (queue : List LaneWaiter) (claim : Claim) (now next_token : ℕ)
    (r : Option (List LaneWaiter × ℕ))
    → IsNumbered queue next_token
    → Renews queue r
    → Places (enqueue queue claim now next_token r)
      × (next_token ≤ (enqueue queue claim now next_token r).2)
unfolding enqueue
enqueue-Places queue claim now next_token none v renews =
    let added =
      λ (t : ℕ). count-append (has_token t) queue (new_waiter claim now next_token true ∷ []) in
    (
      (
        record {
          once = λ t. ground (arith, added t, v.once t, v.below t);
          below = λ t h. ground (arith, added t, v.below t);
        },
        ground (arith, added next_token, v.below next_token),
      ),
      omega arith,
    )
enqueue-Places queue claim now next_token (some (queue', token)) v renews = (
  (
    record {
      once = λ t. ground (arith, renews.0 t, v.once t);
      below = λ t h. ground (arith, renews.0 t, v.below t);
    },
    ground (arith, renews.0 token, renews.1, v.once token),
  ),
  omega arith,
)

-- Where the tokens of a queue are distinct and below the next one, a claim gives the thread one place,
-- under a token that no other place has, and the tokens stay distinct and below the next one.
pub claim_place-Places :
    (queue : List LaneWaiter) (claim : Claim) (now next_token : ℕ)
    → IsNumbered queue next_token
    → Places (claim_place queue claim now next_token)
      × (next_token ≤ (claim_place queue claim now next_token).2)
unfolding claim_place
claim_place-Places queue claim now next_token v =
    enqueue-Places (retain_recent now queue) claim now next_token _
      (unfold retain_recent in (keep-IsNumbered _ queue next_token v))
      (resume-Renews now claim.task claim.identity (retain_recent now queue))

deactivate-token :
    (token t : ℕ) (queue : List LaneWaiter)
    → count (has_token t) (deactivate token queue) ≡ count (has_token t) queue
unfolding deactivate
deactivate-token token t [] = refl
deactivate-token token t (e ∷ es) = ground (arith, deactivate-token token t es)

pub deactivate-IsNumbered :
    (token : ℕ) (queue : List LaneWaiter) (next_token : ℕ)
    → IsNumbered queue next_token
    → IsNumbered (deactivate token queue) next_token
deactivate-IsNumbered token queue next_token v = record {
  once = λ t. omega (arith, v.once t, deactivate-token token t queue);
  below = λ t h. omega (arith, v.below t h, deactivate-token token t queue);
}

pub leave-IsNumbered :
    (token : ℕ) (queue : List LaneWaiter) (next_token : ℕ)
    → IsNumbered queue next_token
    → IsNumbered (leave token queue) next_token
unfolding leave
leave-IsNumbered token queue next_token v = keep-IsNumbered _ queue next_token v

pub requeue_front-IsNumbered :
    (queue : List LaneWaiter) (claim : Claim) (now next_token : ℕ)
    → IsNumbered queue next_token
    → let (queue', next_token') = requeue_front queue claim now next_token in
      IsNumbered queue' next_token'
unfolding requeue_front
requeue_front-IsNumbered queue claim now next_token v =
    elim (Bool-cases (any (λ entry. same_identity entry.identity claim.identity) queue)) [
      | inl there ↦ rw there v
      | inr new ↦ rw new (record {
        once = λ t. ground (arith, v.once t, v.below t);
        below = λ t h. ground (arith, v.below t);
      })
    ]
