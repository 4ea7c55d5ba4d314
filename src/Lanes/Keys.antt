-- ===== src/Lanes/Keys.antt =====
-- The key of `GM_LANE_OWNERS` and `gm_lane_waiters` in crates/agentplug-host/src/registry.rs.
use agentplug.Base.{
  ℕ, zero, suc, sym, ◌∙◌, ◌==◌, ==_iff, Bool, true, ◌&&◌, ◌≡◌, refl, ap, ◌↔◌, arith,
}
use agentplug.Base.Maps.{Key, Text, text_eq, text_eq_iff}
use agentplug.Verbs.Lanes.{Lane, git, read, store, state, browser}

-- A project's root and one of its lanes.
pub record LaneKey : Type 0 where
  pub root : Text
  pub lane : Lane

abbrev pub lane_index : Lane → ℕ
lane_index git = 0
lane_index read = 1
lane_index store = 2
lane_index state = 3
lane_index browser = 4

lane_at : ℕ → Lane
lane_at zero = git
lane_at (suc zero) = read
lane_at (suc (suc zero)) = store
lane_at (suc (suc (suc zero))) = state
lane_at (suc (suc (suc (suc n)))) = browser

lane_at-lane_index : (a : Lane) → lane_at (lane_index a) ≡ a
unfolding lane_at
lane_at-lane_index git = refl
lane_at-lane_index read = refl
lane_at-lane_index store = refl
lane_at-lane_index state = refl
lane_at-lane_index browser = refl

lane_index_iff : (a b : Lane) → ((lane_index a == lane_index b) ≡ true) ↔ (a ≡ b)
lane_index_iff a b = (
  λ h.
      sym (lane_at-lane_index a)
      ∙ ap lane_at ((==_iff (lane_index a) (lane_index b)).0 h)
      ∙ lane_at-lane_index b,
  λ h. (==_iff (lane_index a) (lane_index b)).1 (ap lane_index h),
)

abbrev pub same_key : LaneKey → LaneKey → Bool
same_key a b = text_eq a.root b.root && lane_index a.lane == lane_index b.lane

rebuild : (a b : LaneKey) → a.root ≡ b.root → a.lane ≡ b.lane → a ≡ b
rebuild a b r l = cc

pub same_key_iff : (a b : LaneKey) → (same_key a b ≡ true) ↔ (a ≡ b)
same_key_iff a b = (
  λ h.
      rebuild a b ((text_eq_iff a.root b.root).0 (ground arith))
        ((lane_index_iff a.lane b.lane).0 (ground arith)),
  λ h. ground (
    arith,
    (text_eq_iff a.root b.root).1 (ap (λ k. k.root) h),
    (lane_index_iff a.lane b.lane).1 (ap (λ k. k.lane) h),
  ),
)

instance abbrev pub lane_key : Key LaneKey
lane_key = record { same = same_key; same_iff = same_key_iff }
