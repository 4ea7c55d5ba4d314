-- ===== src/BrowserLease/Heartbeat/Keeping.antt =====
-- What the heartbeat's start and the loss of a claim leave in the maps of
-- crates/agentplug-host/src/browser_lease.rs, and lookups in a map that was written.
use agentplug.Base.{true, List, none, some, if◌then◌else◌, ◌≡◌, refl, inl, inr, ap}
use agentplug.Base.Tests.{Bool-cases, Option-cases}
use agentplug.Base.Maps.{
  Text, text_key, text_eq, text_eq_iff, lookup, insert, remove, lookup-insert, lookup-remove,
}
use agentplug.BrowserLease.{World, is_some}
use agentplug.BrowserLease.Holder.{text_eq-same}
use agentplug.BrowserLease.Heartbeat.{start_heartbeat, stop_heartbeat, unclaim}

pub lookup-same {ℓ} :
    {V : Type ℓ} (root : Text) (v : V) (m : List (Text × V))
    → lookup root (insert root v m) ≡ some v
lookup-same root v m = rw (lookup-insert root root v m, text_eq-same root) refl

pub lookup-gone {ℓ} :
    {V : Type ℓ} (root : Text) (m : List (Text × V)) → lookup root (remove root m) ≡ none
lookup-gone root m = rw (lookup-remove root root m, text_eq-same root) refl

pub same_lookup {ℓ} :
    {V : Type ℓ} (r j : Text) (m : List (Text × V))
    → lookup j m ≡ (if text_eq r j then lookup r m else lookup j m)
same_lookup r j m = elim (Bool-cases (text_eq r j)) [
  | inl same ↦ rw (same, (text_eq_iff r j).0 same) refl
  | inr other ↦ rw other refl
]

module _ {Doc : Type 0} where
  pub start_heartbeat-keeps :
      (root : Text) (w : World Doc)
      → ((start_heartbeat root w).owner_files ≡ w.owner_files)
        × ((start_heartbeat root w).claimed ≡ w.claimed)
        × ((start_heartbeat root w).attended ≡ w.attended)
        × (is_some (lookup root (start_heartbeat root w).heartbeats) ≡ true)
  unfolding start_heartbeat
  start_heartbeat-keeps root w = elim (Option-cases (lookup root w.heartbeats)) [
    | inl none_yet ↦
        rw (none_yet, start_heartbeat)
          (refl, refl, refl, ap is_some (lookup-same root w.next_flag w.heartbeats))
    | inr (flag, beating) ↦ rw (beating, start_heartbeat) (refl, refl, refl, ap is_some beating)
  ]

  pub unclaim-keeps :
      (root : Text) (w : World Doc)
      → ((unclaim root w).claimed ≡ remove root w.claimed)
        × ((unclaim root w).owner_files ≡ w.owner_files)
        × ((unclaim root w).browsers ≡ w.browsers)
        × ((unclaim root w).waiters ≡ w.waiters)
        × (lookup root (unclaim root w).heartbeats ≡ none)
  unfolding stop_heartbeat
  unclaim-keeps root w = elim (Option-cases (lookup root w.heartbeats)) [
    | inl none_yet ↦ rw (none_yet, stop_heartbeat) (refl, refl, refl, refl, none_yet)
    | inr (flag, beating) ↦
        rw (beating, stop_heartbeat) (refl, refl, refl, refl, lookup-gone root w.heartbeats)
  ]
