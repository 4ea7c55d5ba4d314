-- ===== src/Pool/Records.antt =====
-- What admission keeps besides the queue: its records, its waits by thread and its reports, of
-- crates/agentplug-host/src/registry.rs.
use agentplug.Base.{
  ℕ, ◌-◌, ltb, ◌==◌, List, [], ◌∷◌, Option, none, some, String, if◌then◌else◌, map,
}
use agentplug.Pool.Holders.{TicketQueue, AdmissionHolder}

pub data AdmissionBand : Type 0 where
  general_band git_band unmetered : AdmissionBand

pub record AdmissionRecord : Type 0 where
  pub band : AdmissionBand
  pub waited_ms : ℕ
  pub limit : ℕ
  pub in_flight : ℕ

pub record AdmissionWaitState : Type 0 where
  pub kind : String
  pub since_ms : ℕ
  pub limit : ℕ
  pub in_flight : ℕ

pub record AdmissionWaitReport : Type 0 where
  pub kind : String
  pub waited_ms : ℕ
  pub limit : ℕ
  pub in_flight : ℕ
  pub slots : ℕ
  pub holder_detail : List (String × ℕ)

-- What admission reads and writes: the pool's queue, the waits by thread, and each thread's
-- `LAST_ADMISSION`.
pub record World : Type 0 where
  pub queue : TicketQueue
  pub waits : ℕ → Option AdmissionWaitState
  pub last_admission : ℕ → Option AdmissionRecord

abbrev pub update {ℓ} : {A : Type ℓ} → (ℕ → A) → ℕ → A → ℕ → A
update f i a j = if i == j then a else f j

abbrev since_or : Option AdmissionWaitState → ℕ → ℕ
since_or none now = now
since_or (some state) now = state.since_ms

unfoldable pub mark_admission_wait : World → ℕ → String → ℕ → ℕ → ℕ → World
mark_admission_wait w thread kind limit in_flight now = record w {
  waits = update w.waits thread (
      some (record {
        kind = kind;
        since_ms = since_or (w.waits thread) now;
        limit = limit;
        in_flight = in_flight;
      }));
}

unfoldable pub clear_admission_wait : World → ℕ → World
clear_admission_wait w thread = record w { waits = update w.waits thread none }

unfoldable pub record_admission : World → ℕ → AdmissionRecord → World
record_admission w thread r = record w { last_admission = update w.last_admission thread (some r) }

pub take_last_admission : World → ℕ → World × Option AdmissionRecord
take_last_admission w thread =
    (record w { last_admission = update w.last_admission thread none }, w.last_admission thread)

-- `sort_by_key(|holder| holder.since)`, which keeps the order of equal keys.
insert_by_since : AdmissionHolder → List AdmissionHolder → List AdmissionHolder
insert_by_since h [] = h ∷ []
insert_by_since h (x ∷ xs) = if ltb h.since x.since then h ∷ x ∷ xs else x ∷ insert_by_since h xs

sort_by_since : List AdmissionHolder → List AdmissionHolder → List AdmissionHolder
sort_by_since sorted [] = sorted
sort_by_since sorted (h ∷ hs) = sort_by_since (insert_by_since h sorted) hs

unfoldable pub holder_detail : TicketQueue → ℕ → List (String × ℕ)
unfolding insert_by_since sort_by_since
holder_detail q now = map (λ h. (h.verb, now - h.since)) (sort_by_since [] q.holders)
