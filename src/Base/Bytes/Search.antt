-- ===== src/Base/Bytes/Search.antt =====
-- What the searches find in a text that is put together from its parts.
use Prim.Native.Nat.{ℕ}
use mathlib.Core.Path.{◌≡◌, refl}
use mathlib.Core.Bool.{false, ◌||◌}
use mathlib.Core.List.{List, [], ◌∷◌, ◌++◌}
use mathlib.Core.Option.{none, some}
use native.Mathlib.Omega.{arith}
use agentplug.Base.Tests.{◌==◌}
use agentplug.Base.Lists.{All}
use agentplug.Base.Bytes.{
  Bytes, strip_prefix, split_once, take_until, drop_until, has_byte, after_last, split_by, join_by,
}

pub has_byte-append : (c : ℕ) (a b : Bytes) → has_byte c (a ++ b) ≡ (has_byte c a || has_byte c b)
has_byte-append c [] b = refl
has_byte-append c (x ∷ a) b = ground (arith, has_byte-append c a b)

module _ (c : ℕ) (b : Bytes) where
  pub split_once-first :
      (a : Bytes) → has_byte c a ≡ false → split_once (c ∷ []) (a ++ (c ∷ b)) ≡ some (a, b)
  split_once-first [] h = ground arith
  split_once-first (x ∷ a) h = ground (arith, split_once-first a)

  pub take_until-first :
      (a : Bytes) → has_byte c a ≡ false → take_until (λ d. d == c) (a ++ (c ∷ b)) ≡ a
  take_until-first [] h = ground arith
  take_until-first (x ∷ a) h = ground (arith, take_until-first a)

  pub drop_until-first :
      (a : Bytes) → has_byte c a ≡ false → drop_until (λ d. d == c) (a ++ (c ∷ b)) ≡ c ∷ b
  drop_until-first [] h = ground arith
  drop_until-first (x ∷ a) h = ground (arith, drop_until-first a)

  pub after_last-append : (a : Bytes) → has_byte c b ≡ false → after_last c (a ++ (c ∷ b)) ≡ b
  after_last-append [] h = ground arith
  after_last-append (x ∷ a) h = ground (arith, after_last-append a h, has_byte-append c a (c ∷ b))

pub split_once-none : (c : ℕ) (a : Bytes) → has_byte c a ≡ false → split_once (c ∷ []) a ≡ none
split_once-none c [] h = refl
split_once-none c (x ∷ a) h = ground (arith, split_once-none c a)

pub after_last-none : (c : ℕ) (a : Bytes) → has_byte c a ≡ false → after_last c a ≡ a
after_last-none c [] h = refl
after_last-none c (x ∷ a) h = ground arith

strip_prefix-append : (needle b : Bytes) → strip_prefix needle (needle ++ b) ≡ some b
strip_prefix-append [] b = refl
strip_prefix-append (n ∷ needle) b = ground (arith, strip_prefix-append needle b)

-- A needle of several bytes is found where its first byte comes first.
pub split_once-first_of :
    (c : ℕ) (needle a b : Bytes)
    → has_byte c a ≡ false
    → split_once (c ∷ needle) (a ++ (c ∷ (needle ++ b))) ≡ some (a, b)
split_once-first_of c needle [] b h = ground (arith, strip_prefix-append needle b)
split_once-first_of c needle (x ∷ a) b h = ground (arith, split_once-first_of c needle a b)

split_by-append :
    (c : ℕ) (p rest : Bytes)
    → has_byte c p ≡ false
    → split_by c (p ++ (c ∷ rest)) ≡ p ∷ split_by c rest
split_by-append c [] rest h = ground arith
split_by-append c (x ∷ p) rest h = ground (arith, split_by-append c p rest)

split_by-none : (c : ℕ) (p : Bytes) → has_byte c p ≡ false → split_by c p ≡ p ∷ []
split_by-none c [] h = refl
split_by-none c (x ∷ p) h = ground (arith, split_by-none c p)

pub split_by-join_by :
    (c : ℕ) (first : Bytes) (pieces : List Bytes)
    → All (λ p. has_byte c p ≡ false) (first ∷ pieces)
    → split_by c (join_by c (first ∷ pieces)) ≡ first ∷ pieces
split_by-join_by c first [] h = split_by-none c first h.0
split_by-join_by c first (next ∷ pieces) h =
    rw (split_by-append c first (join_by c (next ∷ pieces)) h.0, split_by-join_by c next pieces h.1)
      refl
