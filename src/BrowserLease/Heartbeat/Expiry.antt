-- ===== src/BrowserLease/Heartbeat/Expiry.antt =====
-- How long the heartbeat keeps a lease alive: `refresh_heartbeat`, `attended_within` and `holder_live` of
-- crates/agentplug-host/src/browser_lease.rs.
use agentplug.Base.{
  ℕ, ◌+◌, ◌-◌, ◌*◌, ◌==◌, ◌≤◌, ◌<◌, ltb, true, false, List, [], ◌∷◌, some, ◌≡◌, refl, inl, inr, ◌⊎◌,
}
use agentplug.Base.{arith}
use agentplug.Base.Tests.{Bool-cases, ==_iff}
use agentplug.Base.Maps.{Text, text_key, lookup}
use agentplug.BrowserLease.{LeaseHolder, World, Host, read_holder, write_holder, holder_live}
use agentplug.BrowserLease.Holder.{
  Fits, Printed, text_eq-same, read_holder-write_holder, holder_live-write_holder,
  effective_ttl-pos,
}
use agentplug.BrowserLease.Heartbeat.{attended_within, beat, refresh_heartbeat}

beaten-Fits : (h : LeaseHolder) (now : ℕ) → Fits h → Fits (record h { heartbeat_at_ms = now })
beaten-Fits h now fits = record {
  pid_fits = fits.pid_fits;
  browser_pid_fits = fits.browser_pid_fits;
  port_fits = fits.port_fits;
  ttl_some = fits.ttl_some;
}

pub not_due : (now later ttl : ℕ) → 0 < ttl → later < now + ttl → ltb (later - now) ttl ≡ true
not_due now later ttl pos soon = ground arith

in_time :
    (since now ttl : ℕ) {own_ttl : ℕ}
    → 0 < own_ttl
    → own_ttl ≡ ttl
    → ltb (now - since) own_ttl ≡ true
    → now < since + ttl
in_time since now ttl pos same h = ground arith

overdue :
    (since later ttl beat_ms : ℕ)
    → beat_ms < since + ttl
    → since + 2 * ttl ≤ later
    → ltb (later - beat_ms) ttl ≡ false
overdue since later ttl beat_ms before over = ground arith

module _ {Doc : Type 0} (host : Host Doc) where
  -- A refresh by the holder's own process, when the lease was attended within its ttl, succeeds, and the
  -- holder is then live at every time before the ttl is over again.
  pub refresh_heartbeat-renews :
      (root : Text) (h : LeaseHolder) (now later : ℕ) (w : World Doc)
      → Printed host
      → Fits h
      → read_holder host root w ≡ some h
      → h.pid ≡ host.pid
      → attended_within root h.ttl_ms now w ≡ true
      → later < now + h.ttl_ms
      → ((refresh_heartbeat host root now w).1 ≡ true)
        × (holder_live host root h.ttl_ms later (refresh_heartbeat host root now w).0 ≡ true)
  unfolding refresh_heartbeat beat
  refresh_heartbeat-renews root h now later w printed fits held ours attended soon =
      rw
        (
          held,
          (==_iff h.pid host.pid).1 ours,
          attended,
          holder_live-write_holder host root (record h { heartbeat_at_ms = now }) now later w
              printed (beaten-Fits h now fits),
        )
        (refl, not_due now later h.ttl_ms fits.ttl_some soon)

  -- What a refresh leaves of a holder: the holder itself, or the holder with the time of the refresh.
  refresh_heartbeat-cases :
      (root : Text) (h : LeaseHolder) (now : ℕ) (w : World Doc)
      → Printed host
      → Fits h
      → read_holder host root w ≡ some h
      → ((refresh_heartbeat host root now w).0 ≡ w)
        ⊎ ((attended_within root h.ttl_ms now w ≡ true)
            × ((refresh_heartbeat host root now w).0
                ≡ write_holder host root (record h { heartbeat_at_ms = now }) now w))
  unfolding refresh_heartbeat beat
  refresh_heartbeat-cases root h now w printed fits held =
      rw held (elim (Bool-cases (h.pid == host.pid)) [
        | inl ours ↦ elim (Bool-cases (attended_within root h.ttl_ms now w)) [
          | inl attended ↦ rw (ours, attended) (inr (refl, refl))
          | inr left ↦ rw (ours, left) (inl refl)
        ]
        | inr other ↦ rw other (inl refl)
      ])

  -- The times at which a heartbeat's thread refreshes, in order.
  pub beats : Text → List ℕ → World Doc → World Doc
  beats root [] w = w
  beats root (now ∷ nows) w = beats root nows (refresh_heartbeat host root now w).0

  -- Last attended at a time, with a holder whose last heartbeat is before the end of the ttl from then.
  record Left (root : Text) (ttl since : ℕ) (w : World Doc) : Type 0 where
    holder : LeaseHolder
    held : read_holder host root w ≡ some holder
    fits : Fits holder
    same_ttl : holder.ttl_ms ≡ ttl
    before : holder.heartbeat_at_ms < since + ttl
    last : lookup root w.attended ≡ some since

  attended-write_holder :
      (root : Text) (h : LeaseHolder) (now : ℕ) (w : World Doc)
      → (write_holder host root h now w).attended ≡ w.attended
  unfolding write_holder
  attended-write_holder root h now w = refl

  written-Left :
      (root : Text) (ttl since now : ℕ) (w : World Doc) (left : Left root ttl since w)
      → Printed host
      → attended_within root left.holder.ttl_ms now w ≡ true
      → Left root ttl since
          (write_holder host root (record left.holder { heartbeat_at_ms = now }) now w)
  written-Left root ttl since now w left printed within_ttl =
      let beaten = record left.holder { heartbeat_at_ms = now } in
      record {
        holder = beaten;
        held =
            rw
              (
                read_holder-write_holder host root root beaten now w printed
                    (beaten-Fits left.holder now left.fits),
                text_eq-same root,
              )
              refl;
        fits = beaten-Fits left.holder now left.fits;
        same_ttl = left.same_ttl;
        before =
            in_time since now ttl left.fits.ttl_some left.same_ttl (rw left.last at within_ttl);
        last = rw (attended-write_holder root beaten now w) left.last;
      }

  refresh_heartbeat-Left :
      (root : Text) (ttl since now : ℕ) (w : World Doc)
      → Printed host
      → Left root ttl since w
      → Left root ttl since (refresh_heartbeat host root now w).0
  refresh_heartbeat-Left root ttl since now w printed left =
      elim (refresh_heartbeat-cases root left.holder now w printed left.fits left.held) [
        | inl kept ↦ rw kept left
        | inr (within_ttl, written) ↦
            rw written (written-Left root ttl since now w left printed within_ttl)
      ]

  beats-Left :
      (root : Text) (ttl since : ℕ) (nows : List ℕ) (w : World Doc)
      → Printed host
      → Left root ttl since w
      → Left root ttl since (beats root nows w)
  unfolding beats
  beats-Left root ttl since [] w printed left = left
  beats-Left root ttl since (now ∷ nows) w printed left =
      beats-Left root ttl since nows (refresh_heartbeat host root now w).0 printed
        (refresh_heartbeat-Left root ttl since now w printed left)

  -- A lease that was last attended at `since`, while its heartbeat was not later than that, is not live
  -- two ttls after `since`, however often and whenever the heartbeat's thread refreshed it.
  pub beats-expires :
      (root : Text) (h : LeaseHolder) (since later : ℕ) (nows : List ℕ) (w : World Doc)
      → Printed host
      → Fits h
      → read_holder host root w ≡ some h
      → h.heartbeat_at_ms ≤ since
      → lookup root w.attended ≡ some since
      → since + 2 * h.ttl_ms ≤ later
      → holder_live host root h.ttl_ms later (beats root nows w) ≡ false
  unfolding holder_live
  beats-expires root h since later nows w printed fits held early last over =
      let left : Left root h.ttl_ms since (beats root nows w) =
        beats-Left root h.ttl_ms since nows w printed (record {
          holder = h;
          held = held;
          fits = fits;
          same_ttl = refl;
          before = omega (arith, early, fits.ttl_some);
          last = last;
        }) in
      rw (left.held, effective_ttl-pos h.ttl_ms fits.ttl_some)
        (overdue since later h.ttl_ms left.holder.heartbeat_at_ms left.before over)
