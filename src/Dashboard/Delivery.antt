-- ===== src/Dashboard/Delivery.antt =====
-- The stream of a run in srx-dashboard/dashboard.py: `sse_frame`, and what `do_GET` writes to a reader.
-- `json.dumps` is an argument. An error of the socket cuts what is written short and is not modelled.
pub mod Reading
mod Examples
use srx.Prelude.{ℕ, Bool, true, false, Option, none, some, String, List, [], ◌∷◌, ◌++◌, map}
use srx.Prelude.Text.{decimal}
use srx.Collector.Scan.{◌++◌ as append}
use srx.Dashboard.Run.{Event, Payload, log, end, reset, Subscription}

unfoldable pub kind_of : Payload → String
kind_of (log line) = "log"
kind_of (end e) = "end"
kind_of reset = "reset"

unfoldable pub is_end : Payload → Bool
is_end (log line) = false
is_end (end e) = true
is_end reset = false

-- What a wait at the queue comes to: an event, the marker of a slow reader, or no entry in 15 seconds.
pub data Got : Type 0 where
  entry : Event → Got
  slow timed_out : Got

-- What is written: a frame, or the comment that keeps the connection alive.
pub data Item : Type 0 where
  sent : Event → Item
  keepalive : Item

-- The loop over the queue.
unfoldable pub deliver : List Got → List Item
deliver [] = []
deliver (slow ∷ gots) = []
deliver (timed_out ∷ gots) = keepalive ∷ deliver gots
deliver (entry e ∷ gots) =
    let rest = deliver gots in sent e ∷ (elim (is_end e.payload) [ true ↦ [] | false ↦ rest ])

-- All that is written behind the headers of the stream.
unfoldable pub items : Subscription → List Got → List Item
items s gots = map sent s.backlog ++ (elim s.done [ true ↦ [] | false ↦ deliver gots ])

module _ (dumps : Payload → String) where
  -- `sse_frame`, in front of what follows.
  unfoldable pub sse_frame : Event → String → String
  sse_frame e rest = append "id: " (
      append (decimal e.sequence) (
        append "\nevent: " (
          append (kind_of e.payload)
            (append "\ndata: " (append (dumps e.payload) (append "\n\n" rest))))))

  unfoldable pub write_items : List Item → String
  write_items [] = ""
  write_items (sent e ∷ is) = sse_frame e (write_items is)
  write_items (keepalive ∷ is) = append ": keepalive\n\n" (write_items is)

  unfoldable pub stream_text : Subscription → List Got → String
  stream_text s gots = append "retry: 2000\n\n" (write_items (items s gots))
