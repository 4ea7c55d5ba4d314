-- ===== src/Recorder/Examples.antt =====
-- Concrete recordings of crates/agentplug-host/src/action_recorder.rs.
use agentplug.Base.{◌≡◌, refl, false, [], ◌∷◌, Option, none}
use agentplug.Base.Bytes.{Bytes, bytes}
use agentplug.Verbs.Json.{Value, text, object, end, field, get}
use agentplug.Base.Maps.{lookup, insert}
use agentplug.Recorder.{RecordedEvent, Recordings, start}
use agentplug.Recorder.Incoming.{record_event}
use agentplug.Recorder.Active.{IsBounded, empty, later, starts, records, Recording-bounds}

-- A parser that reads no text, a printer and the printed text of an event.
abbrev no_parse : Bytes → Option Value
no_parse b = none

abbrev print_null : Value → Bytes
print_null v = bytes "null"

abbrev print_kind : RecordedEvent → Bytes
print_kind e = e.kind

abbrev click : Value
click = object (field "type" (text "click") end)

abbrev one_click : Recordings
one_click =
    (record_event no_parse print_null print_kind (bytes "s") click 5 (start (bytes "s") 1 []).0).0

one_click-events :
    one_click
    ≡ (
      bytes "s",
      record {
        started_ms = 1;
        stopped = false;
        size = 5;
        next_id = 2;
        events =
            record {
              event_id = 1;
              kind = bytes "click";
              at_ms = 5;
              url = none;
              text = none;
              body = none;
              is_error = false;
              repeat = 1;
              size = 5;
            }
            ∷ [];
      },
    )
      ∷ []
unfolding record_event start get lookup insert
one_click-events = refl

Recording-bounds_example : IsBounded one_click
Recording-bounds_example =
    Recording-bounds no_parse print_null print_kind one_click
      (later (later empty (starts (bytes "s") 1)) (records (bytes "s") click 5))
