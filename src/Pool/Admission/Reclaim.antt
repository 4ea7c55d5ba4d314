-- ===== src/Pool/Admission/Reclaim.antt =====
-- What `release_over_age_admission_hold` takes back, and when it takes nothing.
use agentplug.Base.{
  ℕ, ◌+◌, ◌-◌, ◌≤◌, ◌<◌, ◌≡◌, refl, subst, ◌⊎◌, inl, inr, ltb, leb, ltb→lt, leb→le, Bool, true,
  ◌&&◌, List, [], ◌∷◌, Option, none, some, count, keep, All, one_if, arith, Bool-cases,
  if◌then◌else◌,
}
use mathlib.Core.List.{Memᴰ}
use agentplug.Pool.Holders.{
  TicketQueue, AdmissionHolder, is_general, has_id, IsCounted, release_holder,
}
use agentplug.Pool.Holders.Counts.{release_holder_general}
use agentplug.Pool.Admission.{
  oldest_of, oldest, reclaim, release_over_age_admission_hold, ReleasedAdmissionHold,
}

module _ (p : AdmissionHolder → Bool) where
  oldest_of-count :
      (best : AdmissionHolder) (hs : List AdmissionHolder)
      → p (oldest_of best hs) ≡ true
      → 1 ≤ one_if (p best) + count p hs
  unfolding oldest_of
  oldest_of-count best [] e = rw e (omega arith)
  oldest_of-count best (h ∷ hs) e = elim (Bool-cases (ltb h.since best.since)) [
    | inl older ↦ omega (arith, oldest_of-count h hs (rw older at e))
    | inr not_older ↦ omega (arith, oldest_of-count best hs (rw not_older at e))
  ]

  oldest-count :
      (h : AdmissionHolder) (hs : List AdmissionHolder)
      → oldest hs ≡ some h
      → p h ≡ true
      → 1 ≤ count p hs
  unfolding oldest
  oldest-count h [] e i = cc
  oldest-count h (x ∷ hs) e i =
      (let same : oldest_of x hs ≡ h = cc in oldest_of-count x hs (rw same i))

oldest_of-le :
    (best : AdmissionHolder) (hs : List AdmissionHolder)
    → ((oldest_of best hs).since ≤ best.since) × All (λ h. (oldest_of best hs).since ≤ h.since) hs
unfolding oldest_of
oldest_of-le best [] = (omega arith, tt)
oldest_of-le best (h ∷ hs) =
    let (below, rest) = oldest_of-le (if ltb h.since best.since then h else best) hs in
    (ground (arith, below), (ground (arith, below), rest))

count-keep :
    (p q : AdmissionHolder → Bool) (hs : List AdmissionHolder)
    → count p (keep q hs) ≡ count (λ h. p h && q h) hs
count-keep p q [] = refl
count-keep p q (h ∷ hs) = ground (arith, count-keep p q hs)

module _ (q : TicketQueue) (min_held now : ℕ) where
  -- A general holder of the queue that no other has been held longer than was held for the bound; the
  -- answer names it with its age, and the queue after is the one that a release of that holder leaves.
  pub record Reclaimed (q' : TicketQueue) (hold : ReleasedAdmissionHold) : Type 0 where
    pub holder : AdmissionHolder
    pub was_general : Memᴰ holder (keep is_general q.holders)
    pub over_age : min_held ≤ now - holder.since
    pub longest_held : All (λ h. now - h.since ≤ now - holder.since) (keep is_general q.holders)
    pub reported : (hold.verb ≡ holder.verb) × (hold.held_ms ≡ now - holder.since)
    pub released : q' ≡ (release_holder q holder.id).0
    pub one_less : q'.non_short_inflight + 1 ≡ q.non_short_inflight
    pub git_same : q'.git_band_inflight ≡ q.git_band_inflight
    pub blocking_same : q'.blocking_inflight ≡ q.blocking_inflight

oldest_of-Memᴰ :
    (best : AdmissionHolder) (hs : List AdmissionHolder)
    → (oldest_of best hs ≡ best) ⊎ Memᴰ (oldest_of best hs) hs
unfolding oldest_of
oldest_of-Memᴰ best [] = inl refl
oldest_of-Memᴰ best (h ∷ hs) = elim (Bool-cases (ltb h.since best.since)) [
  | inl older ↦ rw older (elim (oldest_of-Memᴰ h hs) [
    | inl same ↦ inr (Memᴰ.head same)
    | inr later ↦ inr (Memᴰ.tail later)
  ])
  | inr not_older ↦
      rw not_older
        (elim (oldest_of-Memᴰ best hs) [ inl same ↦ inl same | inr later ↦ inr (Memᴰ.tail later) ])
]

oldest-Memᴰ : (h : AdmissionHolder) (hs : List AdmissionHolder) → oldest hs ≡ some h → Memᴰ h hs
unfolding oldest
oldest-Memᴰ h [] e = cc
oldest-Memᴰ h (x ∷ hs) e =
    let same : oldest_of x hs ≡ h = cc in
    subst (λ y. Memᴰ y (x ∷ hs)) same
      (elim (oldest_of-Memᴰ x hs) [ inl first ↦ Memᴰ.head first | inr later ↦ Memᴰ.tail later ])

-- How the queue and the answer of a reclaim are related to the queue before.
abbrev pub Reclaims : ℕ → TicketQueue → ℕ → ℕ → TicketQueue × Option ReleasedAdmissionHold → Type 0
Reclaims slots q min_held now (q', none) =
    (q' ≡ q)
    × ((slots ≤ q.non_short_inflight + q.git_band_inflight + q.blocking_inflight)
        ⊎ All (λ h. now - h.since < min_held) (keep is_general q.holders))
Reclaims slots q min_held now (q', some hold) =
    (q.non_short_inflight + q.git_band_inflight + q.blocking_inflight < slots)
    × Reclaimed q min_held now q' hold

All-map {κ ν} :
    {P : AdmissionHolder → Type κ} {Q : AdmissionHolder → Type ν} (hs : List AdmissionHolder)
    → ((h : AdmissionHolder) → P h → Q h)
    → All P hs
    → All Q hs
All-map [] f a = tt
All-map (h ∷ hs) f a = (f h a.0, All-map hs f a.1)

eq-nil-All : (P : AdmissionHolder → Type 0) (hs : List AdmissionHolder) → hs ≡ [] → All P hs
eq-nil-All P [] e = tt
eq-nil-All P (h ∷ hs) e = cc

oldest-le :
    (hs : List AdmissionHolder) (h : AdmissionHolder)
    → oldest hs ≡ some h
    → All (λ x. h.since ≤ x.since) hs
unfolding oldest
oldest-le [] h e = tt
oldest-le (x ∷ xs) h e =
    let same : oldest_of x xs ≡ h = cc in
    subst (λ y. All (λ z. y.since ≤ z.since) (x ∷ xs)) same (oldest_of-le x xs)

oldest-own_id :
    (hs : List AdmissionHolder) (h : AdmissionHolder)
    → oldest (keep is_general hs) ≡ some h
    → 1 ≤ count (λ x. has_id h.id x && is_general x) hs
oldest-own_id hs h e = omega (
  arith,
  oldest-count (has_id h.id) h (keep is_general hs) e (ground arith),
  count-keep (has_id h.id) is_general hs,
)

oldest-eq-none : (hs : List AdmissionHolder) → oldest hs ≡ none → hs ≡ []
unfolding oldest
oldest-eq-none [] e = refl
oldest-eq-none (h ∷ hs) e = cc

reclaim-Reclaims :
    (slots : ℕ) (q : TicketQueue) (min_held now : ℕ) (o : Option AdmissionHolder)
    → IsCounted q
    → q.non_short_inflight + q.git_band_inflight + q.blocking_inflight < slots
    → oldest (keep is_general q.holders) ≡ o
    → Reclaims slots q min_held now (reclaim q min_held now o)
unfolding reclaim
reclaim-Reclaims slots q min_held now none v free e =
    (refl, inr (eq-nil-All _ (keep is_general q.holders) (oldest-eq-none _ e)))
reclaim-Reclaims slots q min_held now (some h) v free e =
    elim (Bool-cases (ltb (now - h.since) min_held)) [
      | inl young ↦ rw young (
        refl,
        inr (
            All-map (keep is_general q.holders)
              (λ x old. omega (arith, old, ltb→lt (now - h.since) min_held young))
              (oldest-le _ h e)),
      )
      | inr over ↦
          let (one_less, git_same, blocking_same) =
            release_holder_general q h.id v (oldest-own_id q.holders h e) in
          rw over (
            free,
            record {
              holder = h;
              was_general = oldest-Memᴰ h (keep is_general q.holders) e;
              over_age = ground arith;
              longest_held =
                  All-map (keep is_general q.holders) (λ x old. omega (arith, old))
                    (oldest-le _ h e);
              reported = (refl, refl);
              released = refl;
              one_less = one_less;
              git_same = git_same;
              blocking_same = blocking_same;
            },
          )
    ]

-- Where the counters are the numbers of holders: a reclaim takes an admission only while a slot is free;
-- it takes the general holder that has been held longest, only if it was held for the bound, and releases
-- that holder: the general counter is one less, and the git and blocking bands are untouched. The answer is
-- that holder's verb and age. It takes nothing only when the slots are all counted or every general hold is
-- younger than the bound.
pub release_over_age-Reclaims :
    (slots : ℕ) (q : TicketQueue) (min_held now : ℕ)
    → IsCounted q
    → Reclaims slots q min_held now (release_over_age_admission_hold slots q min_held now)
unfolding release_over_age_admission_hold
release_over_age-Reclaims slots q min_held now v =
    elim (Bool-cases
      (leb slots (q.non_short_inflight + q.git_band_inflight + q.blocking_inflight))) [
        | inl no_slot ↦ rw no_slot (refl, inl (leb→le _ _ no_slot))
        | inr free ↦ rw free (reclaim-Reclaims slots q min_held now _ v (ground arith) refl)
      ]
