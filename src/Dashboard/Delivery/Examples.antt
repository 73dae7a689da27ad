-- ===== src/Dashboard/Delivery/Examples.antt =====
-- The stream of a run with one line in its backlog.
use srx.Prelude.{◌≡◌, refl, true, false, none, String, [], ◌∷◌, ◌++◌, map}
use srx.Prelude.Int.{pos}
use srx.Prelude.Text.{decimal, digits_from, ascii}
use native.Mathlib.Decide.{dec_lt}
use srx.Dashboard.Run.{Event, Payload, log, end, reset, Subscription, new}
use srx.Dashboard.Delivery.{entry, slow, timed_out, stream_text, sse_frame, kind_of}
use srx.Dashboard.Delivery.Reading.{read_stream, seen, until_end, IsJson, read_stream-stream_text}

abbrev dumps : Payload → String
dumps (log line) = "\"line\""
dumps (end e) = "{}"
dumps reset = "\"reset\""

dumps-IsJson : (p : Payload) → IsJson (dumps p)
dumps-IsJson (log line) = refl
dumps-IsJson (end e) = refl
dumps-IsJson reset = refl

abbrev first_line : Event
first_line = record { sequence = 1; payload = log "$ true" }

abbrev last_event : Event
last_event = record {
  sequence = 2;
  payload = end (record { rc = pos 0; elapsed = 1; batch = none; history_error = false });
}

frame_test : sse_frame dumps first_line "" ≡ "id: 1\nevent: log\ndata: \"line\"\n\n"
unfolding sse_frame kind_of decimal digits_from ascii dec_lt
frame_test = refl

abbrev subscription : Subscription
subscription = record {
  run = new "a1" "true" false none 5;
  backlog = first_line ∷ [];
  done = false;
}

read_stream-stream_text_example :
    read_stream (stream_text dumps subscription (timed_out ∷ entry last_event ∷ slow ∷ []))
    ≡ map (seen dumps dumps-IsJson) (
        subscription.backlog ++ (elim subscription.done [
          | true ↦ []
          | false ↦ until_end dumps dumps-IsJson (timed_out ∷ entry last_event ∷ slow ∷ [])
        ]))
read_stream-stream_text_example =
    read_stream-stream_text dumps dumps-IsJson subscription
      (timed_out ∷ entry last_event ∷ slow ∷ [])
