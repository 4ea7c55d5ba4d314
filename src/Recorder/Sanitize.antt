-- ===== src/Recorder/Sanitize.antt =====
-- What the recorder takes out of URLs and bodies before it keeps them, of
-- crates/agentplug-host/src/action_recorder.rs. Texts are their UTF-8 bytes; serde_json's parser and
-- printer are the parameters `parse` and `print`.
pub mod Redaction
pub mod Urls
mod Examples
pub mod Truncation
use agentplug.Base.{
  ℕ, zero, suc, ◌-◌, ◌==◌, leb, ltb, Bool, true, false, not, ◌&&◌, ◌||◌, List, [], ◌∷◌, ◌++◌, map,
  Option, none, some, String, if◌then◌else◌, length, get_elem?, any, keep,
}
use agentplug.Base.Bytes.{
  Bytes, bytes, lower, occurs, split_once, take_until, drop_until, after_last, split_by, join_by,
  ends_with,
}
use agentplug.Base.Maps.{text_eq}
use agentplug.Verbs.Json.{
  Value, Values, Fields, null, bool, number, text, array, object, nil, cons, end, field,
}

abbrev pub max_text_bytes : ℕ
max_text_bytes = 16_384

abbrev pub redacted : String
redacted = "[REDACTED]"

abbrev pub telemetry_hosts : List String
telemetry_hosts =
    "google-analytics.com" ∷ "googletagmanager.com" ∷ "doubleclick.net" ∷ "segment.io"
    ∷ "segment.com" ∷ "mixpanel.com" ∷ "sentry.io" ∷ "datadoghq.com" ∷ []

abbrev pub telemetry_paths : List String
telemetry_paths = "/collect" ∷ "/beacon" ∷ "/telemetry" ∷ []

abbrev pub secret_keys : List String
secret_keys =
    "password" ∷ "passwd" ∷ "token" ∷ "secret" ∷ "authorization" ∷ "cookie" ∷ "api_key" ∷ "apikey"
    ∷ "session" ∷ []

-- `split_once("://").map_or(url, |(_, rest)| rest)`
after_scheme : Bytes → Option (Bytes × Bytes) → Bytes
after_scheme url none = url
after_scheme url (some (scheme, rest)) = rest

pub host_of : Bytes → Bytes
unfolding after_scheme
host_of url =
    let rest = after_scheme url (split_once (bytes "://") url) in
    let authority = take_until (λ c. c == b'/' || c == b'?' || c == b'#') rest in
    let host = after_last b'@' authority in lower (take_until (λ c. c == b':') host)

pub is_telemetry_url : Bytes → Bool
unfolding host_of
is_telemetry_url url =
    let host = host_of url in
    any (λ h. text_eq host (bytes h) || ends_with host (b'.' ∷ bytes h)) telemetry_hosts
    || any (λ p. occurs (bytes p) (lower url)) telemetry_paths

-- A part of a URL before a separator, and what follows the separator.
abbrev pub before_or_all : Bytes → Option (Bytes × Bytes) → Bytes × Option Bytes
before_or_all t none = (t, none)
before_or_all t (some (a, b)) = (a, some b)

abbrev pub is_empty : Bytes → Bool
is_empty [] = true
is_empty (c ∷ cs) = false

-- One `key=value` of a query.
redact_split : Bytes → Option (Bytes × Bytes) → Bytes
redact_split pair none = pair
redact_split pair (some (k, v)) =
    if is_empty v then k ++ bytes "=" else k ++ (b'=' ∷ bytes redacted)

pub redact_pair : Bytes → Bytes
unfolding redact_split
redact_pair pair = redact_split pair (split_once (bytes "=") pair)

query_text : List Bytes → Bytes
query_text [] = []
query_text (pair ∷ pairs) = b'?' ∷ join_by b'&' (pair ∷ pairs)

pub redact_query : Option Bytes → Bytes
unfolding query_text redact_pair
redact_query none = []
redact_query (some q) =
    query_text (map redact_pair (keep (λ p. not (is_empty p)) (split_by b'&' q)))

scheme_text : Option (Bytes × Bytes) → Bytes
scheme_text none = []
scheme_text (some (scheme, rest)) = scheme ++ bytes "://"

fragment_mark : Option Bytes → Bytes
fragment_mark none = []
fragment_mark (some f) = b'#' ∷ []

pub sanitize_recorded_url : Bytes → Bytes
unfolding after_scheme scheme_text fragment_mark redact_query
sanitize_recorded_url url =
    let split = split_once (bytes "://") url in
    let rest = after_scheme url split in
    let (body, fragment) = before_or_all rest (split_once (bytes "#") rest) in
    let (path_part, query) = before_or_all body (split_once (bytes "?") body) in
    let authority = take_until (λ c. c == b'/') path_part in
    let path = drop_until (λ c. c == b'/') path_part in
    scheme_text split
    ++ (after_last b'@' authority ++ (path ++ (redact_query query ++ fragment_mark fragment)))

-- `is_char_boundary`: the end, or a byte that continues no other.
pub is_char_boundary : Bytes → ℕ → Bool
is_char_boundary t i = elim (get_elem? t i) [
  | none ↦ i == length t
  | some b ↦ ltb b 128 || leb 192 b || i == 0
]

abbrev pub take : ℕ → Bytes → Bytes
take zero t = []
take (suc n) [] = []
take (suc n) (c ∷ cs) = c ∷ take n cs

-- `while !text.is_char_boundary(end) { end -= 1; }`; 0 is a boundary.
boundary_below : Bytes → ℕ → ℕ
boundary_below t zero = zero
boundary_below t (suc i) =
    let below = boundary_below t i in if is_char_boundary t (suc i) then suc i else below

pub truncate : Bytes → ℕ → Bytes
unfolding boundary_below
truncate t max = if leb (length t) max then t else take (boundary_below t max) t

pub is_secret : String → Bool
is_secret key = any (λ k. occurs (bytes k) (lower (bytes key))) secret_keys

mutual
  pub redact_value : Value → Value
  redact_value (object fields) = object (redact_fields fields)
  redact_value (array items) = array (redact_items items)
  redact_value null = null
  redact_value (bool b) = bool b
  redact_value (number literal n) = number literal n
  redact_value (text s) = text s

  pub redact_items : Values → Values
  redact_items nil = nil
  redact_items (cons v vs) = cons (redact_value v) (redact_items vs)

  pub redact_fields : Fields → Fields
  redact_fields end = end
  redact_fields (field key v rest) =
      let v' = redact_value v in
      field key (if is_secret key then text redacted else v') (redact_fields rest)

sanitize_parsed : (Value → Bytes) → Bytes → Option Value → Bytes
sanitize_parsed print body none = truncate body max_text_bytes
sanitize_parsed print body (some value) = truncate (print (redact_value value)) max_text_bytes

pub sanitize_recorded_body : (Bytes → Option Value) → (Value → Bytes) → Bytes → Bytes
unfolding sanitize_parsed
sanitize_recorded_body parse print body = sanitize_parsed print body (parse body)
