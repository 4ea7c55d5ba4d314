-- ===== src/Base/Bytes.antt =====
-- Texts as their UTF-8 bytes, with the searches of Rust's `str` that the modules use. Every separator
-- that they look for is ASCII.
pub mod Search
use Prim.Native.Char.{code}
use Prim.Native.String.{String}
use Prim.Native.Nat.{ℕ, zero, suc, ◌+◌, ◌-◌, ◌/◌, ◌%◌, ◌≤◌, ◌<◌}
use mathlib.Core.Path.{◌≡◌, refl}
use mathlib.Core.Bool.{Bool, true, false, not, ◌&&◌, ◌||◌}
use mathlib.Core.List.{List, [], ◌∷◌, ◌++◌, map}
use mathlib.Core.Option.{Option, none, some}
use native.Mathlib.Omega.{arith}
use agentplug.Base.Maps.{text_eq}
use agentplug.Base.Tests.{ltb, leb, ◌==◌, if◌then◌else◌}

abbrev pub Bytes : Type 0
Bytes = List ℕ

-- The bytes of one code point.
abbrev pub utf8 : ℕ → Bytes
utf8 c =
    if ltb c 128
    then c ∷ []
    else if ltb c 2048
    then (192 + c / 64) ∷ (128 + c % 64) ∷ []
    else if ltb c 65536
    then (224 + c / 4096) ∷ (128 + c / 64 % 64) ∷ (128 + c % 64) ∷ []
    else (240 + c / 262144) ∷ (128 + c / 4096 % 64) ∷ (128 + c / 64 % 64) ∷ (128 + c % 64) ∷ []

abbrev pub bytes : String → Bytes
bytes String.[] = []
bytes (String.◌∷◌ c s) = utf8 (code c) ++ bytes s

-- `u8::to_ascii_lowercase` and `str::to_ascii_lowercase`
abbrev pub ascii_lower : ℕ → ℕ
ascii_lower c = if leb b'A' c && leb c b'Z' then c + 32 else c

abbrev pub lower : Bytes → Bytes
lower = map ascii_lower

abbrev pub strip_prefix : Bytes → Bytes → Option Bytes
strip_prefix [] t = some t
strip_prefix (n ∷ ns) [] = none
strip_prefix (n ∷ ns) (c ∷ cs) = if n == c then strip_prefix ns cs else none

abbrev pub found : Option Bytes → Bool
found none = false
found (some t) = true

-- `str::contains`, for a needle that is not empty.
abbrev pub occurs : Bytes → Bytes → Bool
occurs needle [] = false
occurs needle (c ∷ cs) = found (strip_prefix needle (c ∷ cs)) || occurs needle cs

abbrev pub push_front : ℕ → Option (Bytes × Bytes) → Option (Bytes × Bytes)
push_front c none = none
push_front c (some (a, b)) = some (c ∷ a, b)

abbrev cut_at : Option Bytes → Option (Bytes × Bytes) → Option (Bytes × Bytes)
cut_at none later = later
cut_at (some rest) later = some ([], rest)

-- `str::split_once`, for a needle that is not empty.
abbrev pub split_once : Bytes → Bytes → Option (Bytes × Bytes)
split_once needle [] = none
split_once needle (c ∷ cs) =
    cut_at (strip_prefix needle (c ∷ cs)) (push_front c (split_once needle cs))

-- `split(..).next()` and what it leaves, by a test on bytes.
abbrev pub take_until : (ℕ → Bool) → Bytes → Bytes
take_until p [] = []
take_until p (c ∷ cs) = if p c then [] else c ∷ take_until p cs

abbrev pub drop_until : (ℕ → Bool) → Bytes → Bytes
drop_until p [] = []
drop_until p (c ∷ cs) = if p c then c ∷ cs else drop_until p cs

-- `rsplit(c).next()`: what follows the last `c`, or all.
abbrev pub has_byte : ℕ → Bytes → Bool
has_byte c [] = false
has_byte c (x ∷ xs) = x == c || has_byte c xs

abbrev pub after_last : ℕ → Bytes → Bytes
after_last c [] = []
after_last c (x ∷ xs) = if has_byte c xs then after_last c xs else if x == c then xs else x ∷ xs

-- `split(c)`: the pieces between the separators, of which there is always one.
abbrev pub join_first : ℕ → List Bytes → List Bytes
join_first c [] = (c ∷ []) ∷ []
join_first c (piece ∷ pieces) = (c ∷ piece) ∷ pieces

abbrev pub split_by : ℕ → Bytes → List Bytes
split_by c [] = [] ∷ []
split_by c (x ∷ xs) = if x == c then [] ∷ split_by c xs else join_first x (split_by c xs)

-- `join(c)`
abbrev pub join_by : ℕ → List Bytes → Bytes
join_by c [] = []
join_by c (piece ∷ []) = piece
join_by c (piece ∷ next ∷ pieces) = piece ++ (c ∷ join_by c (next ∷ pieces))

-- `ends_with`
abbrev pub ends_with : Bytes → Bytes → Bool
ends_with [] suffix = text_eq [] suffix
ends_with (c ∷ cs) suffix = text_eq (c ∷ cs) suffix || ends_with cs suffix
