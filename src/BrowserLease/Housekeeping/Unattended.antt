-- ===== src/BrowserLease/Housekeeping/Unattended.antt =====
-- Which browsers of roots that are neither leased nor waited for the sweep keeps: the first loop of
-- `housekeeping` of crates/agentplug-host/src/browser_lease.rs.
use agentplug.Base.{
  ℕ, ◌-◌, ◌≤◌, Bool, true, false, ◌||◌, Option, none, some, leb, leb→le, ◌≡◌, refl, ◌⊎◌, inl, inr,
  arith, ap,
}
use agentplug.Base.Tests.{Bool-cases, Option-cases, if-cases}
use agentplug.BrowserLease.{SharedBrowser, Host}
use agentplug.BrowserLease.Browsers.{Probes, browser_running, resolved}
use agentplug.BrowserLease.Housekeeping.{close_reason}
use agentplug.BrowserLease.Housekeeping.Sweeping.{kept, probed, swept}

module _ (probes : Probes) (b : SharedBrowser) where
  -- The process that has the browser's profile open.
  abbrev pub Reopened : ℕ → Type 0
  Reopened pid = (probes.browser_pid b.profile ≡ some pid) × (probes.process_exists pid ≡ true)

  -- A browser is alive if its endpoint answers, or, for one that was not attached to, if its process
  -- exists or another one that has its profile open; then that process's id is known.
  abbrev pub Alive : SharedBrowser → Type 0
  Alive seen =
      ((seen ≡ b)
        × ((probes.endpoint_ready b.port ≡ true)
            ⊎ ((b.attached ≡ false) × (probes.process_exists b.pid ≡ true))))
      ⊎ ((pid : ℕ) × (seen ≡ record b { pid = pid }) × (b.attached ≡ false) × Reopened pid)

  -- Its endpoint does not answer, and it was attached to or no such process exists.
  abbrev pub Gone : Type 0
  Gone =
      (probes.endpoint_ready b.port ≡ false)
      × ((b.attached ≡ true)
          ⊎ ((probes.process_exists b.pid ≡ false) × ((pid : ℕ) → Reopened pid → ⊥)))

  abbrev Probed : Bool × SharedBrowser → Type 0
  Probed (true, seen) = Alive seen
  Probed (false, seen) = Gone

  resolved-Probed :
      (o : Option ℕ)
      → probes.browser_pid b.profile ≡ o
      → b.attached ≡ false
      → probes.endpoint_ready b.port ≡ false
      → probes.process_exists b.pid ≡ false
      → Probed (resolved probes b o)
  unfolding resolved
  resolved-Probed none e free silent gone = (silent, inr (gone, λ pid h. cc))
  resolved-Probed (some pid) e free silent gone = elim (Bool-cases (probes.process_exists pid)) [
    | inl exists ↦ rw exists (inr (pid, refl, free, (e, exists)))
    | inr dead ↦ rw dead (silent, inr (gone, λ other h. ground arith))
  ]

  ready_or_exists :
      b.attached ≡ false
      → (probes.endpoint_ready b.port || probes.process_exists b.pid) ≡ true
      → (probes.endpoint_ready b.port ≡ true)
        ⊎ ((b.attached ≡ false) × (probes.process_exists b.pid ≡ true))
  ready_or_exists free runs = elim (Bool-cases (probes.endpoint_ready b.port)) [
    | inl ready ↦ inl ready
    | inr silent ↦ inr (free, ground arith)
  ]

  running-Probed : Probed (browser_running probes b)
  unfolding browser_running
  running-Probed =
      if-cases Probed b.attached
        (λ attached. elim (Bool-cases (probes.endpoint_ready b.port)) [
          | inl ready ↦ rw ready (inl (refl, inl ready))
          | inr silent ↦ rw silent (silent, inl attached)
        ])
        (λ free.
          if-cases Probed (probes.endpoint_ready b.port || probes.process_exists b.pid)
            (λ runs. inl (refl, ready_or_exists free runs))
            (λ stopped.
              resolved-Probed (probes.browser_pid b.profile) refl free (ground arith)
                (ground arith)))

module _ {Doc : Type 0} (host : Host Doc) (probes : Probes) (now : ℕ) where
  -- Idle since a time that the window has passed from.
  abbrev pub IdleOut : SharedBrowser → Type 0
  IdleOut b = (since : ℕ) × (b.idle_since_ms ≡ some since) × (host.idle_window_ms ≤ now - since)

  -- What is left of a browser: nothing of one that is gone or idle for the window, and else the browser,
  -- alive.
  abbrev pub Unattended : Option SharedBrowser → Option SharedBrowser → Type 0
  Unattended none after = after ≡ none
  Unattended (some b) none = Gone probes b ⊎ IdleOut b
  Unattended (some b) (some seen) = Alive probes b seen × (IdleOut b → ⊥)

  seen-idle : (b seen : SharedBrowser) → Alive probes b seen → seen.idle_since_ms ≡ b.idle_since_ms
  seen-idle b seen (inl (same, alive)) = ap (λ (x : SharedBrowser). x.idle_since_ms) same
  seen-idle b seen (inr (pid, same, free, rest)) = ap (λ (x : SharedBrowser). x.idle_since_ms) same

  closes :
      (b : SharedBrowser) (o : Bool × SharedBrowser)
      → Probed probes b o
      → Unattended (some b) (kept o.1 (close_reason host.idle_window_ms now o))
  unfolding kept close_reason
  closes b (false, seen) gone = inl gone
  closes b (true, seen) alive =
      let same = seen-idle b seen alive in
      elim (Option-cases seen.idle_since_ms) [
        | inl used ↦ simp used (alive, λ (since, e, over). cc)
        | inr (since, idle) ↦ simp idle (elim (Bool-cases (leb host.idle_window_ms (now - since))) [
          | inl over ↦ rw over (inr (since, ground arith, leb→le _ _ over))
          | inr early ↦ rw early (alive, λ (other, e, over). ground arith)
        ])
      ]

  pub swept-Unattended : (o : Option SharedBrowser) → Unattended o (swept host probes now false o)
  unfolding swept probed
  swept-Unattended none = refl
  swept-Unattended (some b) = closes b (browser_running probes b) (running-Probed probes b)
