-- ===== src/Recorder/Sanitize/Truncation.antt =====
-- How a text is cut to a bound.
use agentplug.Base.{
  ℕ, zero, suc, ◌≤◌, ◌<◌, ◌≡◌, refl, ◌⊎◌, inl, inr, leb, true, false, [], ◌∷◌, length, arith,
  Bool-cases, leb→le, subst,
}
use agentplug.Base.Bytes.{Bytes}
use agentplug.Recorder.Sanitize.{is_char_boundary, boundary_below, take, truncate}

-- The cut at `i` is on a boundary, and none lies between it and `max`.
pub record IsLastBoundary (t : Bytes) (max i : ℕ) : Type 0 where
  pub within : i ≤ max
  pub on_boundary : is_char_boundary t i ≡ true
  pub none_later : (j : ℕ) → i < j → j ≤ max → is_char_boundary t j ≡ false

first_boundary : (t : Bytes) → is_char_boundary t 0 ≡ true
unfolding is_char_boundary
first_boundary [] = refl
first_boundary (c ∷ t) = ground arith

next_none :
    (t : Bytes) (max j : ℕ) {i : ℕ}
    → IsLastBoundary t max i
    → is_char_boundary t (suc max) ≡ false
    → i < j
    → j ≤ suc max
    → is_char_boundary t j ≡ false
next_none t max j v inside h k = elim (Bool-cases (leb j max)) [
  | inl below ↦ v.none_later j h (leb→le j max below)
  | inr last ↦
      let e : suc max ≡ j = ground arith in subst (λ n. is_char_boundary t n ≡ false) e inside
]

boundary_below-IsLastBoundary : (t : Bytes) (max : ℕ) → IsLastBoundary t max (boundary_below t max)
unfolding boundary_below
boundary_below-IsLastBoundary t zero = record {
  within = omega arith;
  on_boundary = first_boundary t;
  none_later = λ j h k. absurd (omega arith);
}
boundary_below-IsLastBoundary t (suc max) = elim (Bool-cases (is_char_boundary t (suc max))) [
  | inl here ↦ rw here (record {
    within = omega arith;
    on_boundary = here;
    none_later = λ j h k. absurd (omega arith);
  })
  | inr inside ↦
      let v = boundary_below-IsLastBoundary t max in
      rw inside (record {
        within = omega (arith, v.within);
        on_boundary = v.on_boundary;
        none_later = λ j h k. next_none t max j v inside h k;
      })
]

-- A text within the bound is kept whole; a longer one is cut to a prefix, at its last character boundary
-- within the bound.
pub truncate_lem :
    (t : Bytes) (max : ℕ)
    → ((length t ≤ max) × (truncate t max ≡ t))
      ⊎ ((max < length t) × ((i : ℕ) × IsLastBoundary t max i × (truncate t max ≡ take i t)))
unfolding truncate
truncate_lem t max = elim (Bool-cases (leb (length t) max)) [
  | inl fits ↦ inl (leb→le _ _ fits, rw fits refl)
  | inr long ↦
      inr (ground arith, (boundary_below t max, boundary_below-IsLastBoundary t max, rw long refl))
]
