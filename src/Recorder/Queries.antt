-- ===== src/Recorder/Queries.antt =====
-- What a session asks of its recording: `events` and `frame` of
-- crates/agentplug-host/src/action_recorder.rs.
use agentplug.Base.{
  ℕ, ◌==◌, Bool, true, not, ◌&&◌, ◌||◌, List, map, Option, none, some, if◌then◌else◌, keep, first,
}
use agentplug.Base.Bytes.{Bytes, occurs}
use agentplug.Base.Maps.{text_eq, text_key, lookup, insert}
use agentplug.Recorder.Sanitize.{is_empty}
use agentplug.Recorder.{
  RecordedEvent, Recording, Recordings, Result, ok, err, invalid_session, not_found,
  event_not_found, expire, validate_session,
}

pub record EventFilter : Type 0 where
  pub kind : Option Bytes
  pub errors : Bool
  pub exclude : Option Bytes

kind_passes : Option Bytes → RecordedEvent → Bool
kind_passes none e = true
kind_passes (some kind) e = text_eq e.kind kind

url_passes : Option Bytes → Option Bytes → Bool
url_passes none url = true
url_passes (some pattern) none = true
url_passes (some pattern) (some url) = is_empty pattern || not (occurs pattern url)

pub passes : EventFilter → RecordedEvent → Bool
unfolding kind_passes url_passes
passes filter e =
    kind_passes filter.kind e
    && (not filter.errors || e.is_error)
    && url_passes filter.exclude e.url

unfoldable pub events_found :
    Bytes
    → EventFilter
    → ℕ
    → Recordings
    → Option Recording
    → Recordings × Result (List RecordedEvent)
unfolding passes expire
events_found session filter now map none = (map, err not_found)
events_found session filter now map (some r) =
    (insert session (expire now r) map, ok (keep (passes filter) r.events))

unfoldable pub events :
    Bytes → EventFilter → ℕ → Recordings → Recordings × Result (List RecordedEvent)
unfolding events_found validate_session
events session filter now map =
    if validate_session session
    then events_found session filter now map (lookup session map)
    else (map, err invalid_session)

or_missing : Option RecordedEvent → Result RecordedEvent
or_missing none = err event_not_found
or_missing (some e) = ok e

frame_found : ℕ → Option Recording → Result RecordedEvent
unfolding or_missing
frame_found event_id none = err not_found
frame_found event_id (some r) = or_missing (first (λ e. e.event_id == event_id) r.events)

pub frame : Bytes → ℕ → Recordings → Result RecordedEvent
unfolding frame_found validate_session
frame session event_id map =
    if validate_session session
    then frame_found event_id (lookup session map)
    else err invalid_session
