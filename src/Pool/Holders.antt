-- ===== src/Pool/Holders.antt =====
-- The admission holders of a pool: `TicketQueue`, `register_holder` and `release_holder` of
-- crates/agentplug-host/src/registry.rs. Times are milliseconds, threads are numbers.
pub mod Counts
use agentplug.Base.{
  ℕ, suc, ◌+◌, ◌-◌, ◌≤◌, ◌<◌, ◌≡◌, refl, inl, inr, Bool-cases, ==_iff, ltb, ◌==◌, Bool, true, false,
  List, [], ◌∷◌, ◌++◌, Option, none, some, String, if◌then◌else◌, one_if, count, count-append,
  arith,
}

-- Tickets of one cost class: `abandoned` are those of threads that gave up.
pub record ClassTicketQueue : Type 0 where
  pub next_ticket : ℕ
  pub now_serving : ℕ
  pub abandoned : List ℕ

pub data HolderKind : Type 0 where
  general : (heavy : Bool) → HolderKind
  git_band blocking : HolderKind

pub record AdmissionHolder : Type 0 where
  pub id : ℕ
  pub verb : String
  pub since : ℕ
  pub thread : ℕ
  pub kind : HolderKind

pub record TicketQueue : Type 0 where
  pub cheap : ClassTicketQueue
  pub heavy : ClassTicketQueue
  pub short : ClassTicketQueue
  pub heavy_inflight : ℕ
  pub non_short_inflight : ℕ
  pub blocking_inflight : ℕ
  pub git_band_inflight : ℕ
  pub holders : List AdmissionHolder
  pub next_holder_id : ℕ

abbrev pub new_class_queue : ClassTicketQueue
new_class_queue = record { next_ticket = 0; now_serving = 0; abandoned = [] }

-- The queue of `SharedPluginPool::new`.
abbrev pub new_queue : TicketQueue
new_queue = record {
  cheap = new_class_queue;
  heavy = new_class_queue;
  short = new_class_queue;
  heavy_inflight = 0;
  non_short_inflight = 0;
  blocking_inflight = 0;
  git_band_inflight = 0;
  holders = [];
  next_holder_id = 0;
}

unfoldable pub register_holder : TicketQueue → String → HolderKind → ℕ → ℕ → TicketQueue × ℕ
register_holder q verb kind now thread =
    let id = q.next_holder_id + 1 in
    let holder : AdmissionHolder = record {
      id = id;
      verb = verb;
      since = now;
      thread = thread;
      kind = kind;
    } in
    (record q { next_holder_id = id; holders = q.holders ++ holder ∷ [] }, id)

abbrev pass_over :
    AdmissionHolder
    → Option (AdmissionHolder × List AdmissionHolder)
    → Option (AdmissionHolder × List AdmissionHolder)
pass_over h none = none
pass_over h (some (taken, others)) = some (taken, h ∷ others)

-- `position(|holder| holder.id == id)` and `remove(index)`.
pub take_holder : ℕ → List AdmissionHolder → Option (AdmissionHolder × List AdmissionHolder)
take_holder id [] = none
take_holder id (h ∷ hs) = if h.id == id then some (h, hs) else pass_over h (take_holder id hs)

-- The `match` on the kind of the holder that was removed.
settle : TicketQueue → HolderKind → TicketQueue
settle q (general true) = record q {
  non_short_inflight = q.non_short_inflight - 1;
  heavy_inflight = q.heavy_inflight - 1;
}
settle q (general false) = record q { non_short_inflight = q.non_short_inflight - 1 }
settle q git_band = record q { git_band_inflight = q.git_band_inflight - 1 }
settle q blocking = record q { blocking_inflight = q.blocking_inflight - 1 }

settle_taken : TicketQueue → Option (AdmissionHolder × List AdmissionHolder) → TicketQueue × Bool
unfolding settle
settle_taken q none = (q, false)
settle_taken q (some (holder, others)) = (settle (record q { holders = others }) holder.kind, true)

unfoldable pub release_holder : TicketQueue → ℕ → TicketQueue × Bool
unfolding settle_taken take_holder
release_holder q id = settle_taken q (take_holder id q.holders)

-- What `admit_verb_within_lane` and `admit_blocking_within` do under the lock when they admit.
unfoldable pub enter_general : TicketQueue → String → Bool → ℕ → ℕ → TicketQueue × ℕ
enter_general q verb heavy now thread =
    register_holder
      (record q {
        non_short_inflight = q.non_short_inflight + 1;
        heavy_inflight = if heavy then q.heavy_inflight + 1 else q.heavy_inflight;
      })
      verb (general heavy) now thread

unfoldable pub enter_git_band : TicketQueue → String → ℕ → ℕ → TicketQueue × ℕ
enter_git_band q verb now thread =
    register_holder (record q { git_band_inflight = q.git_band_inflight + 1 }) verb git_band now
      thread

unfoldable pub enter_blocking : TicketQueue → String → ℕ → ℕ → TicketQueue × ℕ
enter_blocking q verb now thread =
    register_holder (record q { blocking_inflight = q.blocking_inflight + 1 }) verb blocking now
      thread

abbrev pub is_general : AdmissionHolder → Bool
is_general h = elim h.kind [ general heavy ↦ true | _ ↦ false ]

abbrev pub is_general_heavy : AdmissionHolder → Bool
is_general_heavy h = elim h.kind [ general heavy ↦ heavy | _ ↦ false ]

abbrev pub is_git_band : AdmissionHolder → Bool
is_git_band h = elim h.kind [ git_band ↦ true | _ ↦ false ]

abbrev pub is_blocking : AdmissionHolder → Bool
is_blocking h = elim h.kind [ blocking ↦ true | _ ↦ false ]

abbrev pub has_id : ℕ → AdmissionHolder → Bool
has_id i h = h.id == i

-- Each counter is the number of holders of its kind, and no two holders share an id.
pub record IsCounted (q : TicketQueue) : Type 0 where
  pub general_counted : q.non_short_inflight ≡ count is_general q.holders
  pub heavy_counted : q.heavy_inflight ≡ count is_general_heavy q.holders
  pub git_counted : q.git_band_inflight ≡ count is_git_band q.holders
  pub blocking_counted : q.blocking_inflight ≡ count is_blocking q.holders
  pub ids : (i : ℕ) → count (has_id i) q.holders ≤ 1
  pub fresh : (i : ℕ) → q.next_holder_id < i → count (has_id i) q.holders ≡ 0
