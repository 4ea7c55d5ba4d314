-- ===== src/BrowserLease/Housekeeping/Shutdown.antt =====
-- What a runner leaves to the next: `shutdown_shared_browsers` and `release_session` of
-- crates/agentplug-host/src/browser_lease.rs.
use agentplug.Base.{
  ℕ, true, false, not, ◌&&◌, ◌||◌, List, [], ◌∷◌, any, ◌≡◌, ◌⊎◌, refl, inl, inr, ap, subst, ◌∙◌,
}
use agentplug.Base.Tests.{Bool-cases, Option-cases, if-cases}
use agentplug.Base.Maps.{Text, text_key, text_eq, text_eq_iff, lookup}
use agentplug.BrowserLease.{SharedBrowser, World, Host, is_some, claim_is_ours, read_holder}
use agentplug.BrowserLease.Heartbeat.{has_waiter, stop_heartbeat}
use agentplug.BrowserLease.Claim.{release_session}
use agentplug.BrowserLease.Claim.Releasing.{LosesFile, release_session-at, release_session-browsers}
use agentplug.BrowserLease.Browsers.{close_browser, write_browser_record, forget_browser_record}
use agentplug.BrowserLease.Housekeeping.{
  keys, is_used, in_window, shutdown_one, shutdown_all, give_up_all, shutdown_shared_browsers,
}
use agentplug.BrowserLease.Housekeeping.Sweeping.{any-keys}
use agentplug.BrowserLease.Housekeeping.Losses.{close_browser-keeps}

module _ {Doc : Type 0} where
  record_keeps :
      (r : Text) (b : SharedBrowser) (w : World Doc)
      → ((write_browser_record r b w).owner_files ≡ w.owner_files)
        × ((write_browser_record r b w).claimed ≡ w.claimed)
  unfolding write_browser_record
  record_keeps r b w = elim (Option-cases b.idle_since_ms) [
    | inl busy ↦ rw (busy, write_browser_record) (refl, refl)
    | inr (since, idle) ↦ rw (idle, write_browser_record) (refl, refl)
  ]

  record_browsers :
      (r : Text) (b : SharedBrowser) (w : World Doc)
      → (write_browser_record r b w).browsers ≡ w.browsers
  unfolding write_browser_record
  record_browsers r b w = elim (Option-cases b.idle_since_ms) [
    | inl busy ↦ rw (busy, write_browser_record) refl
    | inr (since, idle) ↦ rw (idle, write_browser_record) refl
  ]

module _ {Doc : Type 0} (host : Host Doc) (j : Text) where
  stop_heartbeat-browsers : (r : Text) (w : World Doc) → (stop_heartbeat r w).browsers ≡ w.browsers
  unfolding stop_heartbeat
  stop_heartbeat-browsers r w = elim (Option-cases (lookup r w.heartbeats)) [
    | inl none_yet ↦ rw (none_yet, stop_heartbeat) refl
    | inr (flag, beating) ↦ rw (beating, stop_heartbeat) refl
  ]

  shutdown_one-browsers :
      (now : ℕ) (r : Text) (b : SharedBrowser) (w : World Doc)
      → (shutdown_one host now r b w).browsers ≡ w.browsers
  unfolding shutdown_one
  shutdown_one-browsers now r b w =
      let closed : World Doc = forget_browser_record r (close_browser b w) in
      if-cases (λ (u : World Doc). u.browsers ≡ w.browsers)
        (not (is_used b || is_some (lookup r w.claimed) || has_waiter r w)
          && in_window host.idle_window_ms now b.idle_since_ms)
        (λ idle. record_browsers r b w)
        (λ busy. release_session-browsers host r closed ∙ (close_browser-keeps host b w).2)

  shutdown_all-browsers :
      (now : ℕ) (drained : List (Text × SharedBrowser)) (w : World Doc)
      → (shutdown_all host now drained w).browsers ≡ w.browsers
  unfolding shutdown_all
  shutdown_all-browsers now [] w = refl
  shutdown_all-browsers now ((r, b) ∷ drained) w =
      shutdown_all-browsers now drained (shutdown_one host now r b w)
      ∙ shutdown_one-browsers now r b w

  give_up_all-browsers :
      (roots : List Text) (w : World Doc) → (give_up_all host roots w).browsers ≡ w.browsers
  unfolding give_up_all
  give_up_all-browsers [] w = refl
  give_up_all-browsers (r ∷ roots) w =
      give_up_all-browsers roots (release_session host r (stop_heartbeat r w))
      ∙ release_session-browsers host r (stop_heartbeat r w)
      ∙ stop_heartbeat-browsers r w

  loses-not_ours :
      (w u : World Doc)
      → LosesFile j w u
      → claim_is_ours host j w ≡ false
      → claim_is_ours host j u ≡ false
  unfolding claim_is_ours read_holder
  loses-not_ours w u (inl same) other = rw same other
  loses-not_ours w u (inr gone) other = rw gone refl

  -- A root that has its claim in the map, or whose owner file is not this process's own.
  Accounted : World Doc → Type 0
  Accounted w = (is_some (lookup j w.claimed) ≡ true) ⊎ (claim_is_ours host j w ≡ false)

  same-Accounted :
      (w u : World Doc)
      → u.owner_files ≡ w.owner_files
      → u.claimed ≡ w.claimed
      → Accounted w
      → Accounted u
  unfolding Accounted claim_is_ours read_holder
  same-Accounted w u files claims h = rw (files, claims) h

  ended_own :
      (r : Text) (w : World Doc)
      → text_eq r j ≡ true
      → claim_is_ours host j (release_session host r w) ≡ false
  ended_own r w same =
      subst (λ x. claim_is_ours host x (release_session host r w) ≡ false)
        ((text_eq_iff r j).0 same) (release_session-at host r j w).2

  ended-Accounted : (r : Text) (w : World Doc) → Accounted w → Accounted (release_session host r w)
  unfolding Accounted
  ended-Accounted r w h =
      let (loses, claims, other) = release_session-at host r j w in
      elim (Bool-cases (text_eq r j)) [
        | inl same ↦ inr (ended_own r w same)
        | inr apart ↦ elim h [
          | inl had ↦ inl (ap is_some (rw apart at claims) ∙ had)
          | inr not_ours ↦ inr (loses-not_ours w (release_session host r w) loses not_ours)
        ]
      ]

  shutdown_one-Accounted :
      (now : ℕ) (r : Text) (b : SharedBrowser) (w : World Doc)
      → Accounted w
      → Accounted (shutdown_one host now r b w)
  unfolding shutdown_one
  shutdown_one-Accounted now r b w h =
      let closed : World Doc = forget_browser_record r (close_browser b w) in
      if-cases Accounted
        (not (is_used b || is_some (lookup r w.claimed) || has_waiter r w)
          && in_window host.idle_window_ms now b.idle_since_ms)
        (λ idle.
          same-Accounted w (write_browser_record r b w) (record_keeps r b w).0
            (record_keeps r b w).1 h)
        (λ busy. ended-Accounted r closed (
          same-Accounted w closed (close_browser-keeps host b w).1 (close_browser-keeps host b w).0
            h))

  shutdown_all-Accounted :
      (now : ℕ) (drained : List (Text × SharedBrowser)) (w : World Doc)
      → Accounted w
      → Accounted (shutdown_all host now drained w)
  unfolding shutdown_all
  shutdown_all-Accounted now [] w h = h
  shutdown_all-Accounted now ((r, b) ∷ drained) w h =
      shutdown_all-Accounted now drained (shutdown_one host now r b w)
        (shutdown_one-Accounted now r b w h)

  stopped_keeps :
      (r : Text) (w : World Doc)
      → claim_is_ours host j (stop_heartbeat r w) ≡ claim_is_ours host j w
  unfolding claim_is_ours read_holder stop_heartbeat
  stopped_keeps r w = elim (Option-cases (lookup r w.heartbeats)) [
    | inl none_yet ↦ rw (none_yet, stop_heartbeat) refl
    | inr (flag, beating) ↦ rw (beating, stop_heartbeat) refl
  ]

  give_up_all-not_ours :
      (roots : List Text) (w : World Doc)
      → (any (λ r. text_eq r j) roots ≡ true) ⊎ (claim_is_ours host j w ≡ false)
      → claim_is_ours host j (give_up_all host roots w) ≡ false
  unfolding give_up_all
  give_up_all-not_ours [] w (inl none_left) = absurd (cc none_left)
  give_up_all-not_ours [] w (inr other) = other
  give_up_all-not_ours (r ∷ roots) w h =
      let u : World Doc = release_session host r (stop_heartbeat r w) in
      let kept : claim_is_ours host j (stop_heartbeat r w) ≡ claim_is_ours host j w =
        stopped_keeps r w in
      give_up_all-not_ours roots u (elim h [
        | inl listed ↦ elim (Bool-cases (text_eq r j)) [
          | inl same ↦ inr (ended_own r (stop_heartbeat r w) same)
          | inr apart ↦ inl (rw apart at listed)
        ]
        | inr other ↦ inr (
            loses-not_ours (stop_heartbeat r w) u
              (release_session-at host r j (stop_heartbeat r w)).0 (kept ∙ other))
      ])

  -- After a shutdown the process has no browser in its map, and no owner file names it at a root that it
  -- had a claim of.
  pub shutdown-gives_up :
      (now : ℕ) (w : World Doc)
      → is_some (lookup j w.claimed) ≡ true
      → (claim_is_ours host j (shutdown_shared_browsers host now w) ≡ false)
        × ((shutdown_shared_browsers host now w).browsers ≡ [])
  unfolding shutdown_shared_browsers Accounted
  shutdown-gives_up now w had =
      let drained : World Doc = record w { browsers = [] } in
      let ended : World Doc = shutdown_all host now w.browsers drained in
      let left : World Doc = record ended { claimed = [] } in
      let start : Accounted drained = inl had in
      (
        give_up_all-not_ours (keys ended.claimed) left
            (elim (shutdown_all-Accounted now w.browsers drained start) [
              | inl listed ↦ inl (any-keys j ended.claimed ∙ listed)
              | inr other ↦ inr (loses-not_ours ended left (inl refl) other)
            ]),
        give_up_all-browsers (keys ended.claimed) left
            ∙ shutdown_all-browsers now w.browsers drained,
      )
