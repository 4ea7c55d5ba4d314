-- ===== src/BrowserLease/Heartbeat.antt =====
-- Who waits for a browser and who keeps its lease: the wait tickets, `attend`, and the heartbeat with its
-- thread in crates/agentplug-host/src/browser_lease.rs.
pub mod Expiry
pub mod Keeping
use agentplug.Base.{
  ℕ, ◌+◌, ◌-◌, ◌==◌, ltb, Bool, true, false, not, ◌&&◌, ◌||◌, List, [], ◌∷◌, Option, none, some,
  if◌then◌else◌, any,
}
use agentplug.Base.Maps.{Text, text_key, lookup, insert, remove, put}
use agentplug.BrowserLease.{
  LeaseHolder, SharedBrowser, World, Host, is_some, u64_or_zero, read_holder, write_holder,
}

-- The map has no 0, so the subtraction does not stop at it.
abbrev one_less : ℕ → Option ℕ
one_less count = if count - 1 == 0 then none else some (count - 1)

abbrev within : ℕ → ℕ → Option ℕ → Bool
within now ttl_ms none = false
within now ttl_ms (some at) = ltb (now - at) ttl_ms

abbrev is_flag : ℕ → Option ℕ → Bool
is_flag flag none = false
is_flag flag (some current) = current == flag

module _ {Doc : Type 0} where
  unfoldable pub enter_wait : Text → World Doc → World Doc
  enter_wait root w = record w {
    waiters = insert root (u64_or_zero (lookup root w.waiters) + 1) w.waiters;
    browsers =
        put root
          (elim (lookup root w.browsers) [
            | none ↦ none
            | some browser ↦ some (record browser { idle_since_ms = none })
          ])
          w.browsers;
  }

  unfoldable pub leave_wait : Text → World Doc → World Doc
  leave_wait root w = elim (lookup root w.waiters) [
    | none ↦ w
    | some count ↦ record w { waiters = put root (one_less count) w.waiters }
  ]

  abbrev pub has_waiter : Text → World Doc → Bool
  has_waiter root w = is_some (lookup root w.waiters)

  unfoldable pub attend : Text → ℕ → World Doc → World Doc
  attend root now w = record w { attended = insert root now w.attended }

  abbrev pub attended_within : Text → ℕ → ℕ → World Doc → Bool
  attended_within root ttl_ms now w = within now ttl_ms (lookup root w.attended)

  unfoldable pub start_heartbeat : Text → World Doc → World Doc
  start_heartbeat root w = elim (lookup root w.heartbeats) [
    | some flag ↦ w
    | none ↦ record w {
      heartbeats = insert root w.next_flag w.heartbeats;
      next_flag = w.next_flag + 1;
    }
  ]

  unfoldable pub stop_heartbeat : Text → World Doc → World Doc
  stop_heartbeat root w = elim (lookup root w.heartbeats) [
    | none ↦ w
    | some flag ↦ record w { heartbeats = remove root w.heartbeats; stopped = flag ∷ w.stopped }
  ]

  abbrev pub unclaim : Text → World Doc → World Doc
  unfolding stop_heartbeat
  unclaim root w = stop_heartbeat root (record w { claimed = remove root w.claimed })

module _ {Doc : Type 0} (host : Host Doc) where
  beat : Text → ℕ → Option LeaseHolder → World Doc → World Doc × Bool
  beat root now none w = (w, false)
  beat root now (some holder) w =
      if not (holder.pid == host.pid) || not (attended_within root holder.ttl_ms now w)
      then (w, false)
      else (write_holder host root (record holder { heartbeat_at_ms = now }) now w, true)

  unfoldable pub refresh_heartbeat : Text → ℕ → World Doc → World Doc × Bool
  unfolding beat
  refresh_heartbeat root now w = beat root now (read_holder host root w) w

  -- What a heartbeat's thread does after its loop.
  abbrev end_thread : Text → ℕ → World Doc → World Doc
  end_thread root flag w =
      if is_flag flag (lookup root w.heartbeats)
      then record w { heartbeats = remove root w.heartbeats }
      else w

  -- One turn of a heartbeat's thread, and whether it goes on.
  pub heartbeat_turn : Text → ℕ → ℕ → World Doc → World Doc × Bool
  unfolding refresh_heartbeat
  heartbeat_turn root flag now w =
      let (beaten, refreshed) = refresh_heartbeat root now w in
      if any (λ x. x == flag) w.stopped
      then (end_thread root flag w, false)
      else if refreshed
      then (beaten, true)
      else (end_thread root flag beaten, false)
