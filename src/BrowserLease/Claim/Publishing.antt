-- ===== src/BrowserLease/Claim/Publishing.antt =====
-- What a process writes of its browser into the owner file: `publish_holder` of
-- crates/agentplug-host/src/browser_lease.rs.
use agentplug.Base.{ℕ, ◌==◌, not, Option, none, some, ◌≡◌, refl}
use agentplug.Base.Tests.{if-cases}
use agentplug.Base.Maps.{Text}
use agentplug.BrowserLease.{LeaseHolder, World, Host, read_holder, write_holder}
use agentplug.BrowserLease.Claim.{publish, publish_holder}

module _ {Doc : Type 0} (host : Host Doc) (root : Text) (port pid now : ℕ) where
  publish-browsers :
      (o : Option LeaseHolder) (w : World Doc)
      → (publish host root port pid now o w).browsers ≡ w.browsers
  unfolding publish write_holder
  publish-browsers none w = refl
  publish-browsers (some h) w =
      if-cases (λ (u : World Doc). u.browsers ≡ w.browsers) (not (h.pid == host.pid))
        (λ other. refl) (λ ours. refl)

  pub publish_holder-browsers :
      (w : World Doc) → (publish_holder host root port pid now w).browsers ≡ w.browsers
  unfolding publish_holder
  publish_holder-browsers w = publish-browsers (read_holder host root w) w

  publish-claims :
      (o : Option LeaseHolder) (w : World Doc)
      → (publish host root port pid now o w).claimed ≡ w.claimed
  unfolding publish write_holder
  publish-claims none w = refl
  publish-claims (some h) w =
      if-cases (λ (u : World Doc). u.claimed ≡ w.claimed) (not (h.pid == host.pid)) (λ other. refl)
        (λ ours. refl)

  pub publish_holder-claims :
      (w : World Doc) → (publish_holder host root port pid now w).claimed ≡ w.claimed
  unfolding publish_holder
  publish_holder-claims w = publish-claims (read_holder host root w) w
