-- ===== src/BrowserLease/Resets.antt =====
-- `reset_session` of crates/agentplug-host/src/browser_lease.rs.
use agentplug.Base.{ℕ, Bool, false, List, [], ◌∷◌, ◌++◌, Option, none, some, String, if◌then◌else◌}
use agentplug.Base.Maps.{Text, text_key, lookup}
use agentplug.BrowserLease.{SharedBrowser, reap, World, Host}
use agentplug.BrowserLease.Heartbeat.{enter_wait, leave_wait}
use agentplug.BrowserLease.Claim.{
  Round, Outcome, holding, held_by_other, reap_failed, waiting, claim_session, release_claim,
}
use agentplug.BrowserLease.Browsers.{drop_shared_browser}

pub data ResetReply : Type 0 where
  closed : List ℕ → ResetReply
  refused still_resetting : ResetReply

abbrev listed : Option ℕ → List ℕ
listed none = []
listed (some pid) = pid ∷ []

is_attached : Option SharedBrowser → Bool
is_attached none = false
is_attached (some browser) = browser.attached

-- `reaped` are the processes that `reap_stale_browsers` ends in the root's lease directory.
module _ {Doc : Type 0} (host : Host Doc) (root : Text) (reaped : List ℕ) where
  -- What follows once the claim is held, with the processes that were closed before.
  finish_reset : Bool → List ℕ → World Doc → World Doc × ResetReply
  unfolding drop_shared_browser release_claim
  finish_reset was_attached before w =
      let (dropped, pid) = drop_shared_browser root w in
      let all = before ++ listed pid in
      if was_attached then (release_claim host root dropped, closed all) else (
        release_claim host root (record dropped { effects = dropped.effects ++ reap root ∷ [] }),
        closed (all ++ reaped),
      )

  end_reset : Bool → List ℕ → Outcome → World Doc → World Doc × ResetReply
  unfolding finish_reset leave_wait
  end_reset was_attached before (holding holder) w =
      let (finished, reply) = finish_reset was_attached before w in
      (leave_wait root finished, reply)
  end_reset was_attached before waiting w = (w, still_resetting)
  end_reset was_attached before held_by_other w = (leave_wait root w, refused)
  end_reset was_attached before reap_failed w = (leave_wait root w, refused)

  -- A claim that is refused closes the browser and claims once more.
  unfoldable pub reset_session :
      String
      → ℕ
      → ℕ
      → ℕ
      → List (Round Doc)
      → ℕ
      → List (Round Doc)
      → World Doc
      → World Doc × ResetReply
  unfolding end_reset is_attached drop_shared_browser enter_wait claim_session
  reset_session agent ttl_ms wait_ms start rounds again more_rounds w =
      let was_attached = is_attached (lookup root w.browsers) in
      let (first, outcome) =
        claim_session host root agent ttl_ms wait_ms start rounds (enter_wait root w) in
      let (dropped, pid) = drop_shared_browser root first in
      let (second, retried) =
        claim_session host root agent ttl_ms wait_ms again more_rounds dropped in
      elim outcome [
        | holding holder ↦ end_reset was_attached [] (holding holder) first
        | waiting ↦ (first, still_resetting)
        | held_by_other ↦ end_reset was_attached (listed pid) retried second
        | reap_failed ↦ end_reset was_attached (listed pid) retried second
      ]
