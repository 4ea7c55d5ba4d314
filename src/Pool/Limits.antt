-- ===== src/Pool/Limits.antt =====
-- How many dispatches of each kind a pool of `slots` slots admits: the `*_admission_limit` methods of
-- `SharedPluginPool` in crates/agentplug-host/src/registry.rs.
use agentplug.Base.{ℕ, ◌+◌, ◌-◌, ◌/◌, ◌≤◌, ◌<◌, min, max, arith}

abbrev pub max_concurrent_heavy_dispatches : ℕ
max_concurrent_heavy_dispatches = 3

unfoldable pub short_reserved_slots : ℕ → ℕ
short_reserved_slots slots = max (slots / 4) 1

unfoldable pub non_short_admission_limit : ℕ → ℕ
non_short_admission_limit slots = max (slots - short_reserved_slots slots) 1

unfoldable pub heavy_admission_limit : ℕ → ℕ
heavy_admission_limit slots =
    max
      (min (min (non_short_admission_limit slots - 1) (slots - 1)) max_concurrent_heavy_dispatches)
      1

unfoldable pub blocking_admission_limit : ℕ → ℕ
blocking_admission_limit slots = let reserved = max (slots / 4) 1 in max (slots - reserved) 1

unfoldable pub git_band_admission_limit : ℕ → ℕ
git_band_admission_limit slots = max (short_reserved_slots slots - 1) 1

-- In a pool that meters at all (two slots or more) the general band and the git band together fit into
-- the slots; the general band leaves the slots reserved for short verbs, and at least one, free; heavy
-- dispatches are at most three, and never more than the general band.
pub admission_limits_fit :
    (slots : ℕ)
    → 2 ≤ slots
    → (non_short_admission_limit slots + git_band_admission_limit slots ≤ slots)
      × (non_short_admission_limit slots + short_reserved_slots slots ≤ slots)
      × (1 ≤ short_reserved_slots slots)
      × (heavy_admission_limit slots ≤ non_short_admission_limit slots)
      × (heavy_admission_limit slots ≤ 3)
      × (1 ≤ heavy_admission_limit slots)
      × (blocking_admission_limit slots < slots)
unfolding non_short_admission_limit git_band_admission_limit short_reserved_slots
    heavy_admission_limit blocking_admission_limit
admission_limits_fit slots h = omega arith
