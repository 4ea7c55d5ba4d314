-- ===== src/BrowserLease/Claim.antt =====
-- The claim of the lease: `claim_session`, `release_session` and what they call in
-- crates/agentplug-host/src/browser_lease.rs. A wait is a list of rounds, one for each turn of
-- the loop of `claim_session`.
pub mod Releasing
pub mod Waiting
pub mod Holding
pub mod Publishing
pub mod Races
use agentplug.Base.{
  ℕ, ◌+◌, ◌-◌, ◌==◌, leb, ltb, Bool, true, false, not, ◌&&◌, ◌||◌, List, [], ◌∷◌, ◌++◌, Option,
  none, some, String, str_eq, if◌then◌else◌, any,
}
use agentplug.Base.Maps.{Text, text_key, lookup, insert, remove, put}
use agentplug.BrowserLease.Heartbeat.{attend, start_heartbeat, unclaim}
use agentplug.BrowserLease.{
  LeaseHolder, SharedBrowser, Effect, kill_tree, reap, World, Host, is_some, u64_or_zero,
  effective_ttl, new_holder, read_holder, write_holder, holder_live, claim_is_ours,
}

-- `before` is what other threads and processes did since the last turn; `reaped` tells whether `ps`
-- could be run.
pub record Round (Doc : Type 0) : Type 0 where
  pub before : World Doc → World Doc
  pub now : ℕ
  pub reaped : Bool

pub data Outcome : Type 0 where
  holding : LeaseHolder → Outcome
  held_by_other reap_failed waiting : Outcome

abbrev pub prior_ttl : ℕ → Option LeaseHolder → ℕ
prior_ttl ttl none = ttl
prior_ttl ttl (some holder) = holder.ttl_ms

abbrev owned_by : String → Option LeaseHolder → Option LeaseHolder
owned_by owner none = none
owned_by owner (some holder) = if str_eq holder.owner owner then some holder else none

module _ {Doc : Type 0} where
  pub kill : ℕ → World Doc → World Doc
  kill pid w = if leb pid 1 then w else record w { effects = w.effects ++ kill_tree pid ∷ [] }

  abbrev pub take_file : Text → World Doc → World Doc
  take_file root w = record w { owner_files = remove root w.owner_files }

  abbrev pub took : Text → ℕ → World Doc → World Doc
  unfolding attend start_heartbeat
  took root now w =
      start_heartbeat root (attend root now (record w { claimed = insert root tt w.claimed }))

module _ {Doc : Type 0} (host : Host Doc) where
  -- `open` with `create_new`, and the write.
  unfoldable pub create_claim : Text → LeaseHolder → ℕ → World Doc → World Doc × Bool
  create_claim root holder now w =
      if is_some (lookup root w.owner_files)
      then (w, false)
      else (write_holder host root holder now w, true)

  kill_holder : Option LeaseHolder → World Doc → World Doc
  unfolding kill
  kill_holder none w = w
  kill_holder (some holder) w =
      let killed = kill holder.browser_pid w in
      if holder.pid == host.pid then killed else kill holder.pid killed

  unfoldable pub evict_stale_holder :
      Text → Option LeaseHolder → Bool → World Doc → World Doc × Bool
  unfolding kill_holder
  evict_stale_holder root prior reaped w =
      let killed = kill_holder prior w in
      let swept = record killed { effects = killed.effects ++ reap root ∷ [] } in
      if reaped then (take_file root swept, true) else (swept, false)

  -- The part of a turn that looks at the holder.
  pub look_at_holder : Text → ℕ → Round Doc → World Doc → World Doc × Bool
  unfolding evict_stale_holder
  look_at_holder root ttl round w =
      let prior = read_holder host root w in
      if holder_live host root (prior_ttl ttl prior) round.now w
      then (w, true)
      else evict_stale_holder root prior round.reaped w

  -- The `loop` of `claim_session`.
  pub claim_loop : Text → String → ℕ → ℕ → List (Round Doc) → World Doc → World Doc × Outcome
  unfolding create_claim look_at_holder
  claim_loop root owner ttl deadline [] w = (w, waiting)
  claim_loop root owner ttl deadline (round ∷ rounds) w =
      let holder = new_holder host owner ttl round.now in
      let (tried, created) = create_claim root holder round.now (round.before w) in
      let (looked, reaped) = look_at_holder root ttl round tried in
      let later = claim_loop root owner ttl deadline rounds looked in
      if created
      then (took root round.now tried, holding holder)
      else if leb deadline round.now
      then (tried, held_by_other)
      else if reaped
      then later
      else (looked, reap_failed)

  drop_lost : Text → World Doc → World Doc
  drop_lost root w =
      if is_some (lookup root w.claimed) && not (claim_is_ours host root w)
      then unclaim root w
      else w

  mine : Text → String → World Doc → Option LeaseHolder
  mine root owner w =
      if is_some (lookup root w.claimed) then owned_by owner (read_holder host root w) else none

  unfoldable pub claim_session :
      Text → String → ℕ → ℕ → ℕ → List (Round Doc) → World Doc → World Doc × Outcome
  unfolding drop_lost mine claim_loop attend start_heartbeat
  claim_session root owner ttl_ms wait_ms start rounds w =
      let seen = drop_lost root w in
      elim (mine root owner seen) [
        | some holder ↦ (start_heartbeat root (attend root start seen), holding holder)
        | none ↦ claim_loop root owner (effective_ttl ttl_ms) (start + wait_ms) rounds seen
      ]

  released : Text → Option LeaseHolder → World Doc → World Doc
  unfolding kill
  released root none w = w
  released root (some holder) w =
      if not (holder.pid == host.pid)
      then w
      else let killed = kill holder.browser_pid w in
        take_file root (record killed { effects = killed.effects ++ reap root ∷ [] })

  unfoldable pub release_session : Text → World Doc → World Doc
  unfolding released
  release_session root w =
      let given = unclaim root w in released root (read_holder host root given) given

  unfoldable pub release_claim : Text → World Doc → World Doc
  release_claim root w =
      let given = unclaim root w in
      if claim_is_ours host root given then take_file root given else given

  publish : Text → ℕ → ℕ → ℕ → Option LeaseHolder → World Doc → World Doc
  publish root port chrome_pid now none w = w
  publish root port chrome_pid now (some holder) w =
      if not (holder.pid == host.pid)
      then w
      else write_holder host root
          (record holder { port = port; browser_pid = chrome_pid; heartbeat_at_ms = now }) now w

  unfoldable pub publish_holder : Text → ℕ → ℕ → ℕ → World Doc → World Doc
  unfolding publish
  publish_holder root port chrome_pid now w =
      publish root port chrome_pid now (read_holder host root w) w
