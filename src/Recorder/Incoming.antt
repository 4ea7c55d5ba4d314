-- ===== src/Recorder/Incoming.antt =====
-- `record_event` of crates/agentplug-host/src/action_recorder.rs: what it reads of a raw event, and the call.
use agentplug.Base.{ℕ, leb, Bool, false, not, ◌||◌, map, Option, none, some, String, if◌then◌else◌}
use agentplug.Base.Bytes.{Bytes, bytes}
use agentplug.Base.Maps.{text_eq, text_key}
use agentplug.Verbs.Json.{Value, text, get, as_str, as_u64, as_bool}
use agentplug.Recorder.Sanitize.{
  max_text_bytes, is_telemetry_url, sanitize_recorded_url, sanitize_recorded_body, truncate,
}
use agentplug.Recorder.{
  RecordedEvent, Recordings, Result, ok, err, invalid_session, NewEvent, validate_session,
  record_new,
}

-- `raw.get(key).and_then(Value::as_str)`
pub text_member : String → Value → Option Bytes
text_member key raw = elim (get key raw) [
  | none ↦ none
  | some v ↦ elim (as_str v) [ none ↦ none | some s ↦ some (bytes s) ]
]

-- `raw.get(key).and_then(Value::as_bool).unwrap_or(false)`
flag : String → Value → Bool
flag key raw = elim (get key raw) [
  | none ↦ false
  | some v ↦ elim (as_bool v) [ none ↦ false | some b ↦ b ]
]

failed_status : Value → Bool
failed_status raw = elim (get "status" raw) [
  | none ↦ false
  | some v ↦ elim (as_u64 v) [ none ↦ false | some n ↦ leb 400 n ]
]

or_unknown : Option Bytes → Bytes
or_unknown none = bytes "unknown"
or_unknown (some kind) = kind

map_bytes : (Bytes → Bytes) → Option Bytes → Option Bytes
map_bytes f none = none
map_bytes f (some t) = some (f t)

pub is_telemetry : Option Bytes → Bool
is_telemetry none = false
is_telemetry (some url) = is_telemetry_url url

module _ (parse : Bytes → Option Value) (print : Value → Bytes) where
  body_text : Value → Bytes
  body_text (text s) = sanitize_recorded_body parse print (bytes s)
  body_text other = sanitize_recorded_body parse print (print other)

  -- The part of `record_event` before the lock.
  pub read_event : Value → NewEvent
  unfolding text_member flag failed_status or_unknown map_bytes body_text
  read_event raw =
      let kind = or_unknown (text_member "type" raw) in
      record {
        kind = kind;
        url = map_bytes sanitize_recorded_url (text_member "url" raw);
        text = map_bytes (λ t. truncate t max_text_bytes) (text_member "text" raw);
        body = elim (get "body" raw) [ none ↦ none | some b ↦ some (body_text b) ];
        is_error =
            flag "errors" raw
            || flag "error" raw
            || flag "failed" raw
            || text_eq kind (bytes "pageerror")
            || text_eq kind (bytes "error")
            || failed_status raw;
      }

  module _ (print_event : RecordedEvent → Bytes) where
    unfoldable pub record_event : Bytes → Value → ℕ → Recordings → Recordings × Result (Unit {0})
    unfolding validate_session is_telemetry read_event text_member record_new
    record_event session raw now map =
        if not (validate_session session)
        then (map, err invalid_session)
        else if is_telemetry (text_member "url" raw)
        then (map, ok tt)
        else record_new print_event session (read_event raw) now map
