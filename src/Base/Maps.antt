-- ===== src/Base/Maps.antt =====
-- A hash map as a list of pairs with distinct keys, for keys with a test of equality.
use agentplug.Base.Tests.{if◌then◌else◌, ◌==◌}
use Prim.Native.Nat.{ℕ}
use Prim.Native.String.{String}
use mathlib.Core.Path.{◌≡◌, refl}
use mathlib.Core.Logic.{◌↔◌}
use mathlib.Core.Bool.{Bool, true, false, ◌&&◌}
use mathlib.Core.List.{List, [], ◌∷◌}
use mathlib.Core.Option.{Option, none, some}
use native.Mathlib.Omega.{arith}
use text.Mathlib.Text.{◌==◌ as str_eq}
use text.Mathlib.TextEquality.{eq_iff}

pub record Key {ℓ} (K : Type ℓ) : Type ℓ where
  pub same : K → K → Bool
  pub same_iff : (a b : K) → (same a b ≡ true) ↔ (a ≡ b)

instance abbrev pub string_key : Key String
string_key = record { same = str_eq; same_iff = eq_iff }

-- A path as the code points of its text.
abbrev pub Text : Type 0
Text = List ℕ

abbrev pub text_eq : Text → Text → Bool
text_eq [] [] = true
text_eq [] (d ∷ ds) = false
text_eq (c ∷ cs) [] = false
text_eq (c ∷ cs) (d ∷ ds) = c == d && text_eq cs ds

pub text_eq_iff : (a b : Text) → (text_eq a b ≡ true) ↔ (a ≡ b)
text_eq_iff [] [] = (λ h. refl, λ h. refl)
text_eq_iff [] (d ∷ ds) = (λ h. cc, λ h. cc)
text_eq_iff (c ∷ cs) [] = (λ h. cc, λ h. cc)
text_eq_iff (c ∷ cs) (d ∷ ds) =
    (λ h. ground (arith, (text_eq_iff cs ds).0), λ h. ground (arith, (text_eq_iff cs ds).1))

instance abbrev pub text_key : Key Text
text_key = record { same = text_eq; same_iff = text_eq_iff }

module _ {ℓ κ} {K : Type ℓ} {V : Type κ} ⦃key : Key K⦄ where
  unfoldable pub lookup : K → List (K × V) → Option V
  lookup k [] = none
  lookup k ((j, v) ∷ m) = if key.same j k then some v else lookup k m

  unfoldable pub insert : K → V → List (K × V) → List (K × V)
  insert k v [] = (k, v) ∷ []
  insert k v ((j, w) ∷ m) = if key.same j k then (k, v) ∷ m else (j, w) ∷ insert k v m

  unfoldable pub remove : K → List (K × V) → List (K × V)
  remove k [] = []
  remove k ((j, v) ∷ m) = if key.same j k then remove k m else (j, v) ∷ remove k m

  -- Writes an entry that may be absent: what a caller of `entry` or `get_mut` leaves in the map.
  unfoldable pub put : K → Option V → List (K × V) → List (K × V)
  put k none m = remove k m
  put k (some v) m = insert k v m

  pub lookup-insert :
      (k j : K) (v : V) (m : List (K × V))
      → lookup j (insert k v m) ≡ (if key.same k j then some v else lookup j m)
  unfolding lookup insert
  lookup-insert k j v [] = refl
  lookup-insert k j v ((i, w) ∷ m) =
      ground (arith, key.same_iff k j, key.same_iff i k, key.same_iff i j, lookup-insert k j v m)

  pub lookup-remove :
      (k j : K) (m : List (K × V))
      → lookup j (remove k m) ≡ (if key.same k j then none else lookup j m)
  unfolding lookup remove
  lookup-remove k j [] = ground arith
  lookup-remove k j ((i, w) ∷ m) =
      ground (arith, key.same_iff k j, key.same_iff i k, key.same_iff i j, lookup-remove k j m)

  pub lookup-put :
      (k j : K) (o : Option V) (m : List (K × V))
      → lookup j (put k o m) ≡ (if key.same k j then o else lookup j m)
  unfolding put
  lookup-put k j none m = lookup-remove k j m
  lookup-put k j (some v) m = lookup-insert k j v m
