-- ===== src/Pool/Admission/Reach.antt =====
-- Every interleaving of admissions, drops, reclaims and thread releases on the queue of one pool.
use agentplug.Base.{ℕ, ◌+◌, ◌≤◌, ◌<◌, ◌≡◌, subst, List, Option, none, some, String, count, arith}
use agentplug.Pool.Limits.{short_reserved_slots, blocking_admission_limit, admission_limits_fit}
use agentplug.Pool.Holders.{
  TicketQueue, new_queue, is_general, is_general_heavy, is_git_band, is_blocking, enter_blocking,
}
use agentplug.Pool.Records.{AdmissionRecord}
use agentplug.Pool.Admission.{
  Request, Admission, attempt, release_over_age_admission_hold, drop_admission, release_ids,
}
use agentplug.Pool.Admission.Bounds.{
  IsWithin, Entered, attempt-IsWithin, blocking-IsWithin, release_over_age-IsWithin,
  drop_admission-IsWithin, release_ids-IsWithin,
}

-- One critical section of one thread.
pub data Step (slots : ℕ) (q : TicketQueue) : TicketQueue → Type 0 where
  admits :
      (r : Request) (now : ℕ) {q' : TicketQueue} {holder : ℕ} {entry : AdmissionRecord}
      → attempt slots r now q ≡ some (q', holder, entry)
      → Step slots q q'
  admits_blocking :
      (verb : String) (now thread : ℕ)
      → q.blocking_inflight < blocking_admission_limit slots
      → Step slots q (enter_blocking q verb now thread).0
  drops : (a : Admission) → Step slots q (drop_admission q a)
  reclaims :
      (min_held now : ℕ) → Step slots q (release_over_age_admission_hold slots q min_held now).0
  forgets : (ids : List ℕ) → Step slots q (release_ids q ids).0

pub data Reach (slots : ℕ) : TicketQueue → Type 0 where
  start : Reach slots new_queue
  later : {q q' : TicketQueue} → Reach slots q → Step slots q q' → Reach slots q'

some-IsWithin :
    (slots : ℕ) {q : TicketQueue} {holder : ℕ} {entry : AdmissionRecord}
    (o : Option (TicketQueue × ℕ × AdmissionRecord))
    → Entered slots o
    → o ≡ some (q, holder, entry)
    → IsWithin slots q
some-IsWithin slots none v e = cc
some-IsWithin slots {q} (some (q', _, _)) v e = let p : q' ≡ q = cc in subst (IsWithin slots) p v

Step-IsWithin :
    {slots : ℕ} {q q' : TicketQueue} → Step slots q q' → IsWithin slots q → IsWithin slots q'
Step-IsWithin {slots} {q} (admits r now e) v =
    some-IsWithin slots (attempt slots r now q) (attempt-IsWithin slots q v r now) e
Step-IsWithin {slots} {q} (admits_blocking verb now thread room) v =
    blocking-IsWithin slots q v verb now thread room
Step-IsWithin {slots} {q} (drops a) v = drop_admission-IsWithin slots q v a
Step-IsWithin {slots} {q} (reclaims min_held now) v =
    release_over_age-IsWithin slots q v min_held now
Step-IsWithin {slots} {q} (forgets ids) v = release_ids-IsWithin slots q ids v

pub new_queue-IsWithin : (slots : ℕ) → IsWithin slots new_queue
new_queue-IsWithin slots = ground arith

-- In every reachable queue the counters are the numbers of holders, each within its limit.
pub Reach-IsWithin : {slots : ℕ} {q : TicketQueue} → Reach slots q → IsWithin slots q
Reach-IsWithin {slots} start = new_queue-IsWithin slots
Reach-IsWithin (later r step) = Step-IsWithin step (Reach-IsWithin r)

-- However threads interleave on a pool of two slots or more: general and git-band holders together are at
-- most the slots; general holders and the slots reserved for short verbs together are at most the slots
-- (the git band and the blocking band are bounded beside them, not by those slots); at most three holders
-- are heavy; and blocking holders are fewer than the slots.
pub Reach-capacity :
    {slots : ℕ} {q : TicketQueue}
    → 2 ≤ slots
    → Reach slots q
    → (count is_general q.holders + count is_git_band q.holders ≤ slots)
      × (count is_general q.holders + short_reserved_slots slots ≤ slots)
      × (count is_general_heavy q.holders ≤ 3)
      × (count is_blocking q.holders < slots)
Reach-capacity {slots} {q} two r =
    let v = Reach-IsWithin r in
    ground (arith, admission_limits_fit slots two, v.counted.general_counted)
