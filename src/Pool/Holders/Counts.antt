-- ===== src/Pool/Holders/Counts.antt =====
-- The counters of a pool's ticket queue are the numbers of its holders.
use agentplug.Base.{
  ℕ, ◌+◌, ◌≤◌, ◌≡◌, refl, inl, inr, Bool-cases, ==_iff, ◌==◌, Bool, true, false, List, [], ◌∷◌,
  ◌++◌, ◌&&◌, Option, none, some, String, one_if, count, count-append, arith,
}
use agentplug.Pool.Holders.{
  HolderKind, general, git_band, blocking, AdmissionHolder, TicketQueue, register_holder,
  take_holder, pass_over, settle_taken, release_holder, enter_general, enter_git_band,
  enter_blocking, is_general, is_general_heavy, is_git_band, is_blocking, has_id, IsCounted,
}

-- What `take_holder` finds has the id, and every count goes down by what is taken out.
pub data Takes (id : ℕ) (hs : List AdmissionHolder)
    : Option (AdmissionHolder × List AdmissionHolder) → Type 0 where
  untaken : count (has_id id) hs ≡ 0 → Takes id hs none
  taken :
      (h : AdmissionHolder) (rest : List AdmissionHolder)
      → h.id ≡ id
      → ((p : AdmissionHolder → Bool) → count p hs ≡ one_if (p h) + count p rest)
      → Takes id hs (some (h, rest))

pass_over-Takes :
    (id : ℕ) (h : AdmissionHolder) (hs : List AdmissionHolder)
    (r : Option (AdmissionHolder × List AdmissionHolder))
    → (h.id == id) ≡ false
    → Takes id hs r
    → Takes id (h ∷ hs) (pass_over h r)
pass_over-Takes id h hs none n (untaken e) = untaken (ground arith)
pass_over-Takes id h hs (some (x, rest)) n (taken y ys e counts) =
    taken x (h ∷ rest) e (λ p. omega (arith, counts p))

take_holder-Takes : (id : ℕ) (hs : List AdmissionHolder) → Takes id hs (take_holder id hs)
unfolding take_holder
take_holder-Takes id [] = untaken refl
take_holder-Takes id (h ∷ hs) = elim (Bool-cases (h.id == id)) [
  | inl e ↦ rw e (taken h hs ((==_iff h.id id).0 e) (λ p. refl))
  | inr n ↦ rw n (pass_over-Takes id h hs (take_holder id hs) n (take_holder-Takes id hs))
]

module _ (q : TicketQueue) (verb : String) (now thread : ℕ) (v : IsCounted q) where
  abbrev Appended : (kind : HolderKind) (p : AdmissionHolder → Bool) → Type 0
  Appended kind p =
      count p (register_holder q verb kind now thread).0.holders
      ≡ count p q.holders
        + one_if (
            p (record {
              id = q.next_holder_id + 1;
              verb = verb;
              since = now;
              thread = thread;
              kind = kind;
            }))

  count-register : (kind : HolderKind) (p : AdmissionHolder → Bool) → Appended kind p
  unfolding register_holder
  count-register kind p = omega (arith, count-append p q.holders)

  pub enter_general-IsCounted : (heavy : Bool) → IsCounted (enter_general q verb heavy now thread).0
  unfolding enter_general register_holder
  enter_general-IsCounted heavy = record {
    general_counted = ground (arith, count-register (general heavy) is_general);
    heavy_counted = ground (arith, count-register (general heavy) is_general_heavy);
    git_counted = ground (arith, count-register (general heavy) is_git_band);
    blocking_counted = ground (arith, count-register (general heavy) is_blocking);
    ids = λ i. ground (arith, count-register (general heavy) (has_id i), v.ids i, v.fresh i);
    fresh = λ i h. ground (arith, count-register (general heavy) (has_id i), v.fresh i);
  }

  pub enter_git_band-IsCounted : IsCounted (enter_git_band q verb now thread).0
  unfolding enter_git_band register_holder
  enter_git_band-IsCounted = record {
    general_counted = ground (arith, count-register git_band is_general);
    heavy_counted = ground (arith, count-register git_band is_general_heavy);
    git_counted = ground (arith, count-register git_band is_git_band);
    blocking_counted = ground (arith, count-register git_band is_blocking);
    ids = λ i. ground (arith, count-register git_band (has_id i), v.ids i, v.fresh i);
    fresh = λ i h. ground (arith, count-register git_band (has_id i), v.fresh i);
  }

  pub enter_blocking-IsCounted : IsCounted (enter_blocking q verb now thread).0
  unfolding enter_blocking register_holder
  enter_blocking-IsCounted = record {
    general_counted = ground (arith, count-register blocking is_general);
    heavy_counted = ground (arith, count-register blocking is_general_heavy);
    git_counted = ground (arith, count-register blocking is_git_band);
    blocking_counted = ground (arith, count-register blocking is_blocking);
    ids = λ i. ground (arith, count-register blocking (has_id i), v.ids i, v.fresh i);
    fresh = λ i h. ground (arith, count-register blocking (has_id i), v.fresh i);
  }

settle_taken-IsCounted :
    (q : TicketQueue) (id : ℕ) (r : Option (AdmissionHolder × List AdmissionHolder))
    → IsCounted q
    → Takes id q.holders r
    → IsCounted (settle_taken q r).0
unfolding settle_taken
settle_taken-IsCounted q id none v (untaken e) = v
settle_taken-IsCounted q id (some (x, rest)) v (taken h others e counts) = record {
  general_counted = ground (arith, counts is_general);
  heavy_counted = ground (arith, counts is_general_heavy, counts is_general);
  git_counted = ground (arith, counts is_git_band);
  blocking_counted = ground (arith, counts is_blocking);
  ids = λ i. ground (arith, counts (has_id i), v.ids i);
  fresh = λ i h. ground (arith, counts (has_id i), v.fresh i);
}

-- Whatever the id, releasing keeps the counters equal to the numbers of holders.
pub release_holder-IsCounted :
    (q : TicketQueue) (id : ℕ) → IsCounted q → IsCounted (release_holder q id).0
unfolding release_holder
release_holder-IsCounted q id v =
    settle_taken-IsCounted q id (take_holder id q.holders) v (take_holder-Takes id q.holders)

take_holder-eq-none :
    (id : ℕ) (hs : List AdmissionHolder) → count (has_id id) hs ≡ 0 → take_holder id hs ≡ none
unfolding take_holder
take_holder-eq-none id [] e = refl
take_holder-eq-none id (h ∷ hs) e = ground (arith, take_holder-eq-none id hs)

pub release_holder_absent :
    (q : TicketQueue) (id : ℕ) → count (has_id id) q.holders ≡ 0 → release_holder q id ≡ (q, false)
unfolding release_holder
release_holder_absent q id e = rw (take_holder-eq-none id q.holders e)

settle_taken_gone :
    (q : TicketQueue) (id : ℕ) (r : Option (AdmissionHolder × List AdmissionHolder))
    → IsCounted q
    → Takes id q.holders r
    → count (has_id id) (settle_taken q r).0.holders ≡ 0
unfolding settle_taken
settle_taken_gone q id none v (untaken e) = e
settle_taken_gone q id (some (x, rest)) v (taken h others e counts) =
    ground (arith, counts (has_id id), v.ids id)

pub release_holder_gone :
    (q : TicketQueue) (id : ℕ) → IsCounted q → count (has_id id) (release_holder q id).0.holders ≡ 0
unfolding release_holder
release_holder_gone q id v =
    settle_taken_gone q id (take_holder id q.holders) v (take_holder-Takes id q.holders)

-- Where the counters are the numbers of holders and ids are distinct, a second release of one id finds
-- nothing: it answers false and changes nothing, so an admission that was reclaimed while its dispatch ran
-- is not counted down again when its guard is dropped.
pub release_holder_twice :
    (q : TicketQueue) (id : ℕ)
    → IsCounted q
    → release_holder (release_holder q id).0 id ≡ ((release_holder q id).0, false)
release_holder_twice q id v =
    release_holder_absent (release_holder q id).0 id (release_holder_gone q id v)

take_holder-append :
    (id : ℕ) (hs : List AdmissionHolder) (h : AdmissionHolder)
    → count (has_id id) hs ≡ 0
    → h.id ≡ id
    → take_holder id (hs ++ h ∷ []) ≡ some (h, hs)
unfolding take_holder
take_holder-append id [] h none_there e = ground arith
take_holder-append id (x ∷ hs) h none_there e = ground (arith, take_holder-append id hs h)

-- Where the counters are the numbers of holders and ids are distinct, dropping an admission to the general
-- band gives back exactly what it took: the counters and the holders are as before, and only the next
-- holder id has moved.
pub release-enter_general :
    (q : TicketQueue) (verb : String) (heavy : Bool) (now thread : ℕ)
    → IsCounted q
    → let (entered, holder) = enter_general q verb heavy now thread in
      release_holder entered holder ≡ (record q { next_holder_id = holder }, true)
unfolding enter_general register_holder release_holder
release-enter_general q verb heavy now thread v = ground (
  arith,
  take_holder-append (q.next_holder_id + 1) q.holders (record {
    id = q.next_holder_id + 1;
    verb = verb;
    since = now;
    thread = thread;
    kind = general heavy;
  }),
  v.fresh (q.next_holder_id + 1),
)

-- A release never raises a counter.
pub release_holder-le :
    (q : TicketQueue) (id : ℕ)
    → let q' = (release_holder q id).0 in
      (q'.non_short_inflight ≤ q.non_short_inflight)
      × (q'.heavy_inflight ≤ q.heavy_inflight)
      × (q'.git_band_inflight ≤ q.git_band_inflight)
      × (q'.blocking_inflight ≤ q.blocking_inflight)
unfolding release_holder
release_holder-le q id = ground arith

count-and-le :
    (p r : AdmissionHolder → Bool) (hs : List AdmissionHolder)
    → count (λ h. p h && r h) hs ≤ count p hs
count-and-le p r [] = omega arith
count-and-le p r (h ∷ hs) = ground (arith, count-and-le p r hs)

settle_taken_general :
    (q : TicketQueue) (id : ℕ) (r : Option (AdmissionHolder × List AdmissionHolder))
    → IsCounted q
    → Takes id q.holders r
    → 1 ≤ count (λ h. has_id id h && is_general h) q.holders
    → let q' = (settle_taken q r).0 in
      (q'.non_short_inflight + 1 ≡ q.non_short_inflight)
      × (q'.git_band_inflight ≡ q.git_band_inflight)
      × (q'.blocking_inflight ≡ q.blocking_inflight)
unfolding settle_taken
settle_taken_general q id none v (untaken e) n =
    absurd (omega (arith, count-and-le (has_id id) is_general q.holders))
settle_taken_general q id (some (x, rest)) v (taken h others e counts) n = ground (
  arith,
  counts (has_id id),
  counts is_general,
  counts (λ h. has_id id h && is_general h),
  v.ids id,
  count-and-le (has_id id) is_general rest,
)

-- Releasing the id of a general holder takes one off the general counter and leaves the other bands.
pub release_holder_general :
    (q : TicketQueue) (id : ℕ)
    → IsCounted q
    → 1 ≤ count (λ h. has_id id h && is_general h) q.holders
    → let q' = (release_holder q id).0 in
      (q'.non_short_inflight + 1 ≡ q.non_short_inflight)
      × (q'.git_band_inflight ≡ q.git_band_inflight)
      × (q'.blocking_inflight ≡ q.blocking_inflight)
unfolding release_holder
release_holder_general q id v n =
    settle_taken_general q id (take_holder id q.holders) v (take_holder-Takes id q.holders) n
