-- ===== src/Recorder/Sanitize/Urls/Redacted.antt =====
-- A recorded URL is the URL with its user, its query values and its fragment taken out.
use mathlib.Core.List.{append_assoc, append-nil}
use agentplug.Base.{
  ℕ, ◌≡◌, refl, ◌==◌, false, not, List, [], ◌∷◌, ◌++◌, map, Option, none, some, keep, All, arith,
}
use agentplug.Base.Bytes.{Bytes, has_byte, split_once, after_last, join_by}
use agentplug.Base.Bytes.Search.{
  has_byte-append, split_once-first, split_once-none, split_once-first_of, take_until-first,
  drop_until-first, after_last-append, after_last-none, split_by-join_by,
}
use agentplug.Recorder.Sanitize.{
  is_empty, before_or_all, redact_pair, redact_query, fragment_mark, sanitize_recorded_url,
}
use agentplug.Recorder.Sanitize.Urls.{
  Url, IsUrl, pair_text, authority_text, params_text, fragment_text, print_url, hide_value,
  hide_fragment, hidden, Lacks, LacksAll,
}

authority_lacks :
    (c : ℕ) (user : Option Bytes) (host : Bytes)
    → LacksAll (c ∷ []) user
    → has_byte c host ≡ false
    → (c == b'@') ≡ false
    → has_byte c (authority_text user host) ≡ false
authority_lacks c none host u h e = h
authority_lacks c (some user) host u h e = ground (arith, has_byte-append c user (b'@' ∷ host))

pair_text-lacks :
    (c : ℕ) (k v : Bytes)
    → has_byte c k ≡ false
    → has_byte c v ≡ false
    → (c == b'=') ≡ false
    → has_byte c (pair_text (k, v)) ≡ false
pair_text-lacks c k v hk hv e = ground (arith, has_byte-append c k (b'=' ∷ v))

join-lacks :
    (c : ℕ) (first : Bytes) (pieces : List Bytes)
    → All (λ p. has_byte c p ≡ false) (first ∷ pieces)
    → (c == b'&') ≡ false
    → has_byte c (join_by b'&' (first ∷ pieces)) ≡ false
join-lacks c first [] h e = h.0
join-lacks c first (next ∷ pieces) h e = ground (
  arith,
  has_byte-append c first (b'&' ∷ join_by b'&' (next ∷ pieces)),
  join-lacks c next pieces h.1,
  h.0,
)

module _ (c : ℕ) where
  abbrev PairLacks : Bytes × Bytes → Type 0
  PairLacks (k, v) = (has_byte c k ≡ false) × (has_byte c v ≡ false)

  pairs-lack :
      (ps : List (Bytes × Bytes))
      → All PairLacks ps
      → (c == b'=') ≡ false
      → All (λ p. has_byte c p ≡ false) (map pair_text ps)
  pairs-lack [] h e = tt
  pairs-lack ((k, v) ∷ ps) h e = (pair_text-lacks c k v h.0.0 h.0.1 e, pairs-lack ps h.1 e)

  params_text-lacks :
      (ps : List (Bytes × Bytes))
      → All PairLacks ps
      → (c == b'=') ≡ false
      → (c == b'&') ≡ false
      → (c == b'?') ≡ false
      → has_byte c (params_text ps) ≡ false
  params_text-lacks [] h e f g = refl
  params_text-lacks (p ∷ ps) h e f g =
      ground (arith, join-lacks c (pair_text p) (map pair_text ps) (pairs-lack (p ∷ ps) h e))

  front-lacks :
      (user : Option Bytes) (host path : Bytes)
      → LacksAll (c ∷ []) user
      → has_byte c host ≡ false
      → has_byte c path ≡ false
      → (c == b'@') ≡ false
      → (c == b'/') ≡ false
      → has_byte c (authority_text user host ++ (b'/' ∷ path)) ≡ false
  front-lacks user host path u h p e f = ground (
    arith,
    has_byte-append c (authority_text user host) (b'/' ∷ path),
    authority_lacks c user host u h e,
  )

abbrev ParamPlain : Bytes × Bytes → Type 0
ParamPlain p = Lacks (b'=' ∷ b'&' ∷ b'#' ∷ []) p.0 × Lacks (b'&' ∷ b'#' ∷ []) p.1

hash_params : (ps : List (Bytes × Bytes)) → All ParamPlain ps → All (PairLacks b'#') ps
hash_params [] h = tt
hash_params ((k, v) ∷ ps) h = ((h.0.0.1.1.0, h.0.1.1.0), hash_params ps h.1)

and_params : (ps : List (Bytes × Bytes)) → All ParamPlain ps → All (PairLacks b'&') ps
and_params [] h = tt
and_params ((k, v) ∷ ps) h = ((h.0.0.1.0, h.0.1.0), and_params ps h.1)

redact_pair-pair_text :
    (k v : Bytes)
    → has_byte b'=' k ≡ false
    → redact_pair (pair_text (k, v)) ≡ pair_text (hide_value (k, v))
unfolding redact_pair
redact_pair-pair_text k [] h = rw (split_once-first b'=' [] k h) refl
redact_pair-pair_text k (c ∷ v) h = rw (split_once-first b'=' (c ∷ v) k h) refl

map-redact_pair :
    (ps : List (Bytes × Bytes))
    → All ParamPlain ps
    → map redact_pair (keep (λ p. not (is_empty p)) (map pair_text ps))
      ≡ map pair_text (map hide_value ps)
map-redact_pair [] h = refl
map-redact_pair (([], v) ∷ ps) h =
    rw (redact_pair-pair_text [] v h.0.0.0, map-redact_pair ps h.1) refl
map-redact_pair ((c ∷ k, v) ∷ ps) h =
    rw (redact_pair-pair_text (c ∷ k) v h.0.0.0, map-redact_pair ps h.1) refl

-- What `split_once('?')` leaves of the query.
query_of : List (Bytes × Bytes) → Option Bytes
query_of [] = none
query_of (p ∷ ps) = some (join_by b'&' (map pair_text (p ∷ ps)))

redact_query-params :
    (ps : List (Bytes × Bytes))
    → All ParamPlain ps
    → redact_query (query_of ps) ≡ params_text (map hide_value ps)
unfolding redact_query query_of
redact_query-params [] h = refl
redact_query-params (p ∷ ps) h =
    rw
      (
        split_by-join_by b'&' (pair_text p) (map pair_text ps)
            (pairs-lack b'&' (p ∷ ps) (and_params (p ∷ ps) h) refl),
        map-redact_pair (p ∷ ps) h,
      )
      refl

split_fragment :
    (t : Bytes) (fragment : Option Bytes)
    → has_byte b'#' t ≡ false
    → before_or_all
        (t ++ fragment_text fragment)
        (split_once (b'#' ∷ []) (t ++ fragment_text fragment))
      ≡ (t, fragment)
split_fragment t none h = rw (append-nil t, split_once-none b'#' t h) refl
split_fragment t (some f) h = rw (split_once-first b'#' f t h) refl

split_query :
    (t : Bytes) (ps : List (Bytes × Bytes))
    → has_byte b'?' t ≡ false
    → before_or_all (t ++ params_text ps) (split_once (b'?' ∷ []) (t ++ params_text ps))
      ≡ (t, query_of ps)
unfolding query_of
split_query t [] h = rw (append-nil t, split_once-none b'?' t h) refl
split_query t (p ∷ ps) h =
    rw (split_once-first b'?' (join_by b'&' (map pair_text (p ∷ ps))) t h) refl

authority_host :
    (user : Option Bytes) (host : Bytes)
    → has_byte b'@' host ≡ false
    → after_last b'@' (authority_text user host) ≡ host
authority_host none host h = after_last-none b'@' host h
authority_host (some user) host h = after_last-append b'@' host user h

fragment_mark-eq : (f : Option Bytes) → fragment_mark f ≡ fragment_text (hide_fragment f)
unfolding fragment_mark
fragment_mark-eq none = refl
fragment_mark-eq (some f) = refl

slash_user :
    (user : Option Bytes) → LacksAll (b'/' ∷ b'?' ∷ b'#' ∷ []) user → LacksAll (b'/' ∷ []) user
slash_user none h = tt
slash_user (some u) h = (h.0, tt)

query_user :
    (user : Option Bytes) → LacksAll (b'/' ∷ b'?' ∷ b'#' ∷ []) user → LacksAll (b'?' ∷ []) user
query_user none h = tt
query_user (some u) h = (h.1.0, tt)

hash_user :
    (user : Option Bytes) → LacksAll (b'/' ∷ b'?' ∷ b'#' ∷ []) user → LacksAll (b'#' ∷ []) user
hash_user none h = tt
hash_user (some u) h = (h.1.1.0, tt)

module _ (u : Url) (v : IsUrl u) where
  abbrev front : Bytes
  front = authority_text u.user u.host ++ (b'/' ∷ u.path)

  abbrev before_fragment : Bytes
  before_fragment = front ++ params_text u.params

  body_lacks_hash : has_byte b'#' before_fragment ≡ false
  body_lacks_hash = ground (
    arith,
    has_byte-append b'#' front (params_text u.params),
    front-lacks b'#' u.user u.host u.path (hash_user u.user v.user_plain) v.host_plain.1.1.0
        v.path_plain.1.0 refl refl,
    params_text-lacks b'#' u.params (hash_params u.params v.params_plain) refl refl refl,
  )

  front_lacks_query : has_byte b'?' front ≡ false
  front_lacks_query =
      front-lacks b'?' u.user u.host u.path (query_user u.user v.user_plain) v.host_plain.1.0
        v.path_plain.0 refl refl

  authority_lacks_slash : has_byte b'/' (authority_text u.user u.host) ≡ false
  authority_lacks_slash =
      authority_lacks b'/' u.user u.host (slash_user u.user v.user_plain) v.host_plain.0 refl

  -- What the recorder keeps of a URL whose parts hold none of the bytes that separate them: the URL
  -- without its user, with each query value that is not empty replaced by the mark, and with nothing of
  -- its fragment.
  pub sanitize_recorded_url-print_url : sanitize_recorded_url (print_url u) ≡ print_url (hidden u)
  unfolding sanitize_recorded_url print_url hidden
  sanitize_recorded_url-print_url =
      rw
        (
          split_once-first_of b':' (b'/' ∷ b'/' ∷ []) u.scheme
              (before_fragment ++ fragment_text u.fragment) v.scheme_plain.0,
          split_fragment before_fragment u.fragment body_lacks_hash,
          split_query front u.params front_lacks_query,
          take_until-first b'/' u.path (authority_text u.user u.host) authority_lacks_slash,
          drop_until-first b'/' u.path (authority_text u.user u.host) authority_lacks_slash,
          authority_host u.user u.host v.host_plain.1.1.1.0,
          redact_query-params u.params v.params_plain,
          fragment_mark-eq u.fragment,
        )
        (simp append_assoc)
