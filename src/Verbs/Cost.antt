-- ===== src/Verbs/Cost.antt =====
-- Cost classes: `cost_class_for_verb`, the codesearch scope and `cost_class_for_dispatch` of
-- crates/agentplug-host/src/registry.rs. `serde_json::from_str(..).ok()` is the parameter `parse`.
use Prim.Native.Char.{code}
use Prim.Native.String.{String}
use mathlib.Core.List.{reverse}
use agentplug.Base.{
  ℕ, ◌+◌, ltb, leb, ◌==◌, Bool, true, false, not, ◌&&◌, ◌||◌, List, [], ◌∷◌, map, Option, none,
  some, any, str_eq, if◌then◌else◌,
}
use agentplug.Verbs.Json.{Value, Values, null, text, array, nil, cons, get, as_str}
use agentplug.Verbs.Tables.{short_dispatch_verbs, heavy_dispatch_verbs, codesearch_scope_fields}

unfoldable pub contains : List String → String → Bool
contains table verb = any (λ entry. str_eq entry verb) table

pub data DispatchCostClass : Type 0 where
  cheap heavy short : DispatchCostClass

unfoldable pub cost_class_for_verb : String → DispatchCostClass
cost_class_for_verb verb =
    if contains heavy_dispatch_verbs verb
    then heavy
    else if contains short_dispatch_verbs verb
    then short
    else cheap

abbrev pub codes : String → List ℕ
codes String.[] = []
codes (String.◌∷◌ c s) = code c ∷ codes s

-- `char::is_whitespace`: the code points with the property White_Space.
is_whitespace : ℕ → Bool
is_whitespace c =
    (leb 9 c && leb c 13)
    || any (λ w. w == c) (32 ∷ 133 ∷ 160 ∷ 5760 ∷ 8232 ∷ 8233 ∷ 8239 ∷ 8287 ∷ 12288 ∷ [])
    || (leb 8192 c && leb c 8202)

trim_start_by : (ℕ → Bool) → List ℕ → List ℕ
trim_start_by p [] = []
trim_start_by p (c ∷ cs) = if p c then trim_start_by p cs else c ∷ cs

pub trim_end_by : (ℕ → Bool) → List ℕ → List ℕ
unfolding trim_start_by
trim_end_by p cs = reverse (trim_start_by p (reverse cs))

-- `trim_start_matches("./")` takes the prefix off again and again.
trim_start_dot_slash : List ℕ → List ℕ
trim_start_dot_slash [] = []
trim_start_dot_slash (c ∷ []) = c ∷ []
trim_start_dot_slash (c ∷ d ∷ cs) =
    let rest = trim_start_dot_slash cs in if c == b'.' && d == b'/' then rest else c ∷ d ∷ cs

pub backslashes_to_slashes : List ℕ → List ℕ
backslashes_to_slashes = map (λ c. if c == 92 then b'/' else c)

is_wildcard : ℕ → Bool
is_wildcard c = any (λ w. w == c) (b'*' ∷ b'?' ∷ b'[' ∷ b']' ∷ b'{' ∷ b'}' ∷ [])

is_empty : List ℕ → Bool
is_empty [] = true
is_empty (c ∷ cs) = false

pub codesearch_scope_pattern_is_literal : String → Bool
unfolding is_whitespace trim_start_by trim_end_by trim_start_dot_slash backslashes_to_slashes
    is_wildcard is_empty
codesearch_scope_pattern_is_literal raw =
    let trimmed = trim_end_by is_whitespace (trim_start_by is_whitespace (codes raw)) in
    let slashed = trim_start_dot_slash (backslashes_to_slashes trimmed) in
    let normalized = trim_end_by (λ c. c == b'/') slashed in
    not (is_empty normalized) && not (any is_wildcard normalized)

-- The loop over the entries of an array: `none` is its `return false`.
literal_entries : Values → ℕ → Option ℕ
literal_entries nil named = some named
literal_entries (cons (text s) rest) named =
    if codesearch_scope_pattern_is_literal s then literal_entries rest (named + 1) else none
literal_entries (cons other rest) named = none

-- One round of the loop over `CODESEARCH_SCOPE_FIELDS`.
literal_field : Option Value → ℕ → Option ℕ
literal_field none named = some named
literal_field (some null) named = some named
literal_field (some (text s)) named =
    if codesearch_scope_pattern_is_literal s then some (named + 1) else none
literal_field (some (array nil)) named = none
literal_field (some (array (cons v vs))) named = literal_entries (cons v vs) named
literal_field (some other) named = none

literal_fields : List String → Value → ℕ → Option ℕ
literal_fields [] value named = some named
literal_fields (f ∷ fs) value named = elim (literal_field (get f value) named) [
  | none ↦ none
  | some n ↦ literal_fields fs value n
]

pub codesearch_scope_is_literal : Value → Bool
unfolding literal_entries literal_field literal_fields
codesearch_scope_is_literal value = elim (literal_fields codesearch_scope_fields value 0) [
  | none ↦ false
  | some n ↦ ltb 0 n
]

-- The `match mode.as_deref()`.
class_of_mode : Option String → DispatchCostClass
class_of_mode none = heavy
class_of_mode (some mode) = if str_eq mode "dual" then heavy else cheap

class_of_scope : Option Value → DispatchCostClass
unfolding class_of_mode
class_of_scope none = class_of_mode none
class_of_scope (some value) =
    if codesearch_scope_is_literal value
    then cheap
    else class_of_mode (elim (get "mode" value) [ none ↦ none | some m ↦ as_str m ])

unfoldable pub cost_class_for_dispatch :
    (String → Option Value) → String → String → DispatchCostClass
unfolding class_of_scope
cost_class_for_dispatch parse verb body =
    if str_eq verb "codesearch" then class_of_scope (parse body) else cost_class_for_verb verb
