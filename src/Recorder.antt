-- ===== src/Recorder.antt =====
-- The action recorder: crates/agentplug-host/src/action_recorder.rs. `RECORDINGS` is a map from a
-- session's name to its recording. serde_json's parser and printer and the printed text of an event are
-- parameters.
pub mod Sanitize
pub mod Incoming
pub mod Queries
pub mod Limits
pub mod Active
mod Examples
use agentplug.Base.{
  ℕ, ◌+◌, ◌-◌, ◌==◌, leb, ltb, Bool, true, false, not, ◌&&◌, ◌||◌, List, [], ◌∷◌, ◌++◌, map, Option,
  none, some, String, str_eq, if◌then◌else◌, length, any, all, count, keep, first,
}
use agentplug.Base.Bytes.{Bytes, bytes, utf8, occurs}
use agentplug.Base.Maps.{Text, text_eq, text_key, lookup, insert}
use agentplug.Verbs.Json.{Value, Fields, bool, text, get, as_str, as_u64, as_bool}
use agentplug.Recorder.Sanitize.{
  max_text_bytes, is_empty, is_telemetry_url, sanitize_recorded_url, sanitize_recorded_body,
  truncate,
}

abbrev pub recording_max_duration_ms : ℕ
recording_max_duration_ms = 1_200_000

abbrev pub recording_max_bytes : ℕ
recording_max_bytes = 524_288_000

abbrev pub max_active_recordings : ℕ
max_active_recordings = 10

abbrev pub max_session_len : ℕ
max_session_len = 64

-- `event_id` is the number of the id that the source prints after an `e`.
pub record RecordedEvent : Type 0 where
  pub event_id : ℕ
  pub kind : Bytes
  pub at_ms : ℕ
  pub url : Option Bytes
  pub text : Option Bytes
  pub body : Option Bytes
  pub is_error : Bool
  pub repeat : ℕ
  pub size : ℕ

pub record Recording : Type 0 where
  pub started_ms : ℕ
  pub stopped : Bool
  pub size : ℕ
  pub next_id : ℕ
  pub events : List RecordedEvent

abbrev pub Recordings : Type 0
Recordings = List (Bytes × Recording)

pub data Failure : Type 0 where
  invalid_session already_active limit_active not_found not_active size_limit event_not_found :
      Failure

pub data Result {ℓ} (A : Type ℓ) : Type ℓ where
  ok : A → Result A
  err : Failure → Result A

is_session_byte : ℕ → Bool
is_session_byte c =
    (leb b'a' c && leb c b'z')
    || (leb b'A' c && leb c b'Z')
    || (leb b'0' c && leb c b'9')
    || c == b'_'
    || c == b'-'

pub validate_session : Bytes → Bool
unfolding is_session_byte
validate_session session =
    not (is_empty session) && leb (length session) max_session_len && all is_session_byte session

pub expire : ℕ → Recording → Recording
expire now r =
    if not r.stopped && ltb recording_max_duration_ms (now - r.started_ms)
    then record r { stopped = true }
    else r

pub expire_all : ℕ → Recordings → Recordings
unfolding expire
expire_all now [] = []
expire_all now ((session, r) ∷ map) = (session, expire now r) ∷ expire_all now map

abbrev pub is_active : Bytes × Recording → Bool
is_active (session, r) = not r.stopped

is_running : Option Recording → Bool
is_running none = false
is_running (some r) = not r.stopped

abbrev pub fresh_recording : ℕ → Recording
fresh_recording now = record {
  started_ms = now;
  stopped = false;
  size = 0;
  next_id = 1;
  events = [];
}

-- The registry that the closure of `start` leaves, and what it answers.
start_in : Bytes → ℕ → Recordings → Recordings × Result ℕ
unfolding is_running
start_in session now map =
    if is_running (lookup session map)
    then (map, err already_active)
    else if leb max_active_recordings (count is_active map)
    then (map, err limit_active)
    else (insert session (fresh_recording now) map, ok now)

pub start : Bytes → ℕ → Recordings → Recordings × Result ℕ
unfolding start_in expire_all validate_session
start session now map =
    if validate_session session
    then start_in session now (expire_all now map)
    else (map, err invalid_session)

stop_found : Bytes → ℕ → Recordings → Option Recording → Recordings × Result (ℕ × ℕ × ℕ)
stop_found session now map none = (map, err not_found)
stop_found session now map (some r) =
    (insert session (record r { stopped = true }) map, ok (now, length r.events, r.size))

-- The answer: the time, the number of events and their size.
pub stop : Bytes → ℕ → Recordings → Recordings × Result (ℕ × ℕ × ℕ)
unfolding stop_found validate_session
stop session now map =
    if validate_session session
    then stop_found session now map (lookup session map)
    else (map, err invalid_session)

-- A raw event with its fields read: what `record_event` has before it takes the lock.
pub record NewEvent : Type 0 where
  pub kind : Bytes
  pub url : Option Bytes
  pub text : Option Bytes
  pub body : Option Bytes
  pub is_error : Bool

same_option : Option Bytes → Option Bytes → Bool
same_option none none = true
same_option none (some b) = false
same_option (some a) none = false
same_option (some a) (some b) = text_eq a b

abbrev network : Bytes
network = bytes "network"

-- Whether the last event is the same network request.
pub repeats : NewEvent → RecordedEvent → Bool
unfolding same_option
repeats e last =
    text_eq last.kind network
    && same_option last.url e.url
    && same_option last.text e.text
    && same_option last.body e.body
    && (if last.is_error then e.is_error else not e.is_error)

-- `events.last_mut()`: the events with the last one's count raised, if it is the same.
merge_last : NewEvent → List RecordedEvent → Option (List RecordedEvent)
unfolding repeats
merge_last e [] = none
merge_last e (last ∷ []) =
    if repeats e last then some (record last { repeat = last.repeat + 1 } ∷ []) else none
merge_last e (x ∷ y ∷ events) = elim (merge_last e (y ∷ events)) [
  | none ↦ none
  | some merged ↦ some (x ∷ merged)
]

module _ (print_event : RecordedEvent → Bytes) where
  -- The event before its size is known, and with it.
  abbrev pub unsized : NewEvent → ℕ → ℕ → RecordedEvent
  unsized e id now = record {
    event_id = id;
    kind = e.kind;
    at_ms = now;
    url = e.url;
    text = e.text;
    body = e.body;
    is_error = e.is_error;
    repeat = 1;
    size = 0;
  }

  abbrev pub sized : RecordedEvent → RecordedEvent
  sized e = record e { size = length (print_event e) }

  append_event : RecordedEvent → Recording → Recording × Result (Unit {0})
  append_event event r =
      if ltb recording_max_bytes (r.size + event.size)
      then (record r { stopped = true }, err size_limit)
      else (
        record r {
          size = r.size + event.size;
          next_id = r.next_id + 1;
          events = r.events ++ event ∷ [];
        },
        ok tt,
      )

  merge_or_append :
      NewEvent → ℕ → Recording → Option (List RecordedEvent) → Recording × Result (Unit {0})
  unfolding append_event
  merge_or_append e now r none = append_event (sized (unsized e r.next_id now)) r
  merge_or_append e now r (some merged) = (record r { events = merged }, ok tt)

  -- The closure of `record_event` on the recording, after `expire`.
  pub record_in : NewEvent → ℕ → Recording → Recording × Result (Unit {0})
  unfolding merge_or_append merge_last
  record_in e now r =
      if r.stopped
      then (r, err not_active)
      else merge_or_append e now r (if text_eq e.kind network then merge_last e r.events else none)

  record_found :
      Bytes → NewEvent → ℕ → Recordings → Option Recording → Recordings × Result (Unit {0})
  unfolding record_in expire
  record_found session e now map none = (map, err not_active)
  record_found session e now map (some r) =
      let (r', answer) = record_in e now (expire now r) in (insert session r' map, answer)

  -- `with_registry` of `record_event`.
  pub record_new : Bytes → NewEvent → ℕ → Recordings → Recordings × Result (Unit {0})
  unfolding record_found
  record_new session e now map = record_found session e now map (lookup session map)
