-- ===== src/Broker/Routes/Shift.antt =====
-- What a shift of traffic takes from the other providers of a service.
use agentplug.Base.{
  ℕ, zero, suc, ◌+◌, ◌-◌, ◌≤◌, ◌≡◌, refl, min, ◌==◌, ltb, Bool, List, [], ◌∷◌, Option, none, some,
  set, get_elem?, length, arith, Bool-cases, inl, inr,
}
use agentplug.Broker.{BrokerProvider}
use agentplug.Broker.Routes.{
  weight_of_others, share_of, give_share, reduce_others, gain, gain_at, shift_to,
}

-- A share is no more than the weight or than what remains of the reduction.
share_of-le :
    (is_last : Bool) (reduction total remaining : ℕ) (p : BrokerProvider)
    → (share_of is_last reduction total remaining p ≤ p.weight)
      × (share_of is_last reduction total remaining p ≤ remaining)
unfolding share_of
share_of-le is_last reduction total remaining p = (omega arith, omega arith)

give_share-weight :
    (share : ℕ) (p : BrokerProvider) → (give_share share p).weight ≡ p.weight - share
unfolding give_share
give_share-weight share p = ground arith

reduce_others-takes :
    (target reduction total i left remaining : ℕ) (ps : List BrokerProvider)
    → let after =
        weight_of_others target i (reduce_others target reduction total i left remaining ps) in
      (after ≤ weight_of_others target i ps) × (weight_of_others target i ps ≤ after + remaining)
unfolding reduce_others weight_of_others
reduce_others-takes target reduction total i left remaining [] = (omega arith, omega arith)
reduce_others-takes target reduction total i left remaining (p ∷ ps) =
    elim (Bool-cases (i == target)) [
      | inl own ↦ rw own (
          let rest = reduce_others-takes target reduction total (i + 1) left remaining ps in
          (ground (arith, rest), ground (arith, rest)))
      | inr other ↦
          let share = share_of (left == 1) reduction total remaining p in
          let rest =
            reduce_others-takes target reduction total (i + 1) (left - 1) (remaining - share) ps in
          let fits = share_of-le (left == 1) reduction total remaining p in
          let lighter = give_share-weight share p in
          rw other (ground (arith, rest, fits, lighter), ground (arith, rest, fits, lighter))
    ]

weight_of_others-set :
    (target i k : ℕ) (ps : List BrokerProvider) (p : BrokerProvider)
    → i + k ≡ target
    → weight_of_others target i (set ps k p) ≡ weight_of_others target i ps
unfolding weight_of_others
weight_of_others-set target i k [] p e = refl
weight_of_others-set target i zero (q ∷ ps) p e = ground arith
weight_of_others-set target i (suc k) (q ∷ ps) p e =
    ground (arith, weight_of_others-set target (i + 1) k ps p (omega (arith, e)))

gain_at-others :
    (target reduction : ℕ) (ps : List BrokerProvider) (here : Option BrokerProvider)
    → weight_of_others target 0 (gain_at target reduction ps here) ≡ weight_of_others target 0 ps
unfolding gain_at
gain_at-others target reduction ps none = refl
gain_at-others target reduction ps (some p) =
    weight_of_others-set target 0 target ps (gain reduction p) (omega arith)

-- A shift of traffic never adds to the other providers, and takes from them together no more than the
-- step, nor more than 100.
pub shift_to-takes :
    (target step_percent : ℕ) (ps : List BrokerProvider)
    → let after = weight_of_others target 0 (shift_to target step_percent ps) in
      (after ≤ weight_of_others target 0 ps)
      × (weight_of_others target 0 ps ≤ after + min step_percent 100)
unfolding shift_to
shift_to-takes target step_percent ps =
    let total = weight_of_others target 0 ps in
    let reduction = min (min step_percent 100) total in
    elim (Bool-cases (ltb 0 reduction)) [
      | inl some_weight ↦
          let reduced = reduce_others target reduction total 0 (length ps - 1) reduction ps in
          let takes = reduce_others-takes target reduction total 0 (length ps - 1) reduction ps in
          let kept = gain_at-others target reduction reduced (get_elem? reduced target) in
          rw (some_weight, kept) (omega (arith, takes), omega (arith, takes))
      | inr nothing ↦
          rw (nothing, gain_at-others target reduction ps (get_elem? ps target))
            (omega arith, omega arith)
    ]
