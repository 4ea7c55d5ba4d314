-- ===== src/Recorder/Sanitize/Urls.antt =====
-- A URL in its parts, and what crates/agentplug-host/src/action_recorder.rs keeps of it.
pub mod Redacted
use mathlib.Core.List.{append_assoc, append-nil}
use agentplug.Base.{
  ℕ, ◌≡◌, refl, sym, ap, ◌∙◌, ◌==◌, Bool, true, false, not, ◌||◌, List, [], ◌∷◌, ◌++◌, map, Option,
  none, some, if◌then◌else◌, keep, All, arith, Bool-cases, inl, inr, String,
}
use agentplug.Base.Bytes.{
  Bytes, bytes, has_byte, split_once, take_until, drop_until, after_last, split_by, join_by,
}
use agentplug.Base.Bytes.Search.{
  has_byte-append, split_once-first, split_once-none, split_once-first_of, take_until-first,
  drop_until-first, after_last-append, after_last-none, split_by-join_by,
}
use agentplug.Recorder.Sanitize.{
  redacted, is_empty, before_or_all, after_scheme, redact_split, redact_pair, query_text,
  redact_query, scheme_text, fragment_mark, sanitize_recorded_url,
}

-- A URL in its parts: `path` is what follows the first slash after the host.
pub record Url : Type 0 where
  pub scheme : Bytes
  pub user : Option Bytes
  pub host : Bytes
  pub path : Bytes
  pub params : List (Bytes × Bytes)
  pub fragment : Option Bytes

abbrev pub pair_text : Bytes × Bytes → Bytes
pair_text (k, v) = k ++ (b'=' ∷ v)

abbrev pub authority_text : Option Bytes → Bytes → Bytes
authority_text none host = host
authority_text (some user) host = user ++ (b'@' ∷ host)

abbrev pub params_text : List (Bytes × Bytes) → Bytes
params_text [] = []
params_text (p ∷ ps) = b'?' ∷ join_by b'&' (map pair_text (p ∷ ps))

abbrev pub fragment_text : Option Bytes → Bytes
fragment_text none = []
fragment_text (some f) = b'#' ∷ f

pub print_url : Url → Bytes
print_url u =
    u.scheme
    ++ (b':'
        ∷ ((b'/' ∷ b'/' ∷ [])
            ++ (((authority_text u.user u.host ++ (b'/' ∷ u.path)) ++ params_text u.params)
                ++ fragment_text u.fragment)))

-- The URL without what a recording must not keep: a value that was there is the mark.
abbrev pub hide_value : Bytes × Bytes → Bytes × Bytes
hide_value (k, v) = (k, if is_empty v then [] else bytes redacted)

abbrev pub hide_fragment : Option Bytes → Option Bytes
hide_fragment none = none
hide_fragment (some f) = some []

pub hidden : Url → Url
hidden u = record u {
  user = none;
  params = map hide_value u.params;
  fragment = hide_fragment u.fragment;
}

abbrev pub Lacks : Bytes → Bytes → Type 0
Lacks cs t = All (λ c. has_byte c t ≡ false) cs

abbrev pub LacksAll : Bytes → Option Bytes → Type 0
LacksAll cs none = Unit {0}
LacksAll cs (some t) = Lacks cs t

-- No part holds a byte that separates it from the next.
pub record IsUrl (u : Url) : Type 0 where
  pub scheme_plain : Lacks (b':' ∷ []) u.scheme
  pub user_plain : LacksAll (b'/' ∷ b'?' ∷ b'#' ∷ []) u.user
  pub host_plain : Lacks (b'/' ∷ b'?' ∷ b'#' ∷ b'@' ∷ []) u.host
  pub path_plain : Lacks (b'?' ∷ b'#' ∷ []) u.path
  pub params_plain :
      All
        (λ (p : Bytes × Bytes). Lacks (b'=' ∷ b'&' ∷ b'#' ∷ []) p.0 × Lacks (b'&' ∷ b'#' ∷ []) p.1)
        u.params
