-- ===== src/Dashboard/Delivery/Reading.antt =====
-- A reader of the stream finds the events in it: lines of fields, and an empty line behind each event, as
-- the standard of server-sent events has them.
use Prim.Native.Char.{Char, code}
use srx.Prelude.{
  ℕ, ◌≡◌, refl, ap, ◌∙◌, inl, inr, Bool, true, false, not, Option, none, some, String, List, [],
  ◌∷◌, ◌++◌, map, all, nat_eq, Bool-cases, arith,
}
use srx.Prelude.Text.{codes, decimal, is_digit}
use srx.Prelude.Decimal.{all-decimal}
use srx.Collector.Scan.{◌++◌ as append, all_chars}
use srx.Collector.Line.{skip}
use srx.Dashboard.Run.{Event, Payload, log, end, reset, Subscription}
use srx.Dashboard.Delivery.{
  kind_of, is_end, Got, entry, slow, timed_out, Item, sent, keepalive, deliver, items, sse_frame,
  write_items, stream_text,
}

-- What a reader knows of an event.
pub record Seen : Type 0 where
  pub id : String
  pub kind : String
  pub payload : String

put_line : Bool → Char → List String → List String
put_line true c ls = "" ∷ ls
put_line false c [] = String.◌∷◌ c String.[] ∷ []
put_line false c (l ∷ ls) = String.◌∷◌ c l ∷ ls

pub split_lines : String → List String
split_lines String.[] = "" ∷ []
split_lines (String.◌∷◌ c s) = put_line (nat_eq (code c) 10) c (split_lines s)

-- The value of a field, if the line has this name.
abbrev or_keep : Option String → String → String
or_keep none old = old
or_keep (some v) old = v

field : Seen → String → Seen
field e l = record {
  id = or_keep (skip "id: " l) e.id;
  kind = or_keep (skip "event: " l) e.kind;
  payload = or_keep (skip "data: " l) e.payload;
}

abbrev blank : Seen
blank = record { id = ""; kind = ""; payload = "" }

-- An empty line hands on the event read so far, if it has data.
dispatch : Seen → String → List Seen → List Seen
dispatch e String.[] rest = rest
dispatch e (String.◌∷◌ c s) rest = e ∷ rest

pub read_lines : Seen → List String → List Seen
read_lines e [] = []
read_lines e (String.[] ∷ ls) = dispatch e e.payload (read_lines blank ls)
read_lines e (String.◌∷◌ c l ∷ ls) = read_lines (field e (String.◌∷◌ c l)) ls

pub read_stream : String → List Seen
read_stream s = read_lines blank (split_lines s)

abbrev pub on_line : ℕ → Bool
on_line c = not (nat_eq c 10)

split_lines-append :
    (a rest : String)
    → all_chars on_line a ≡ true
    → split_lines (append a (append "\n" rest)) ≡ a ∷ split_lines rest
unfolding split_lines put_line
split_lines-append String.[] rest h = refl
split_lines-append (String.◌∷◌ c a) rest h =
    let here : nat_eq (code c) 10 ≡ false = ground arith in
    rw (here, split_lines-append a rest (ground arith)) refl

digits_on_line : (s : String) → all is_digit (codes s) ≡ true → all_chars on_line s ≡ true
unfolding all
digits_on_line String.[] h = refl
digits_on_line (String.◌∷◌ c s) h = elim (Bool-cases (is_digit (code c))) [
  | inl e ↦
      let here : on_line (code c) ≡ true = ground arith in rw here (digits_on_line s (rw e at h))
  | inr e ↦ absurd (cc (rw e at h))
]

-- JSON text on one line.
abbrev pub IsJson : String → Type 0
IsJson String.[] = ⊥
IsJson (String.◌∷◌ c s) = all_chars on_line (String.◌∷◌ c s) ≡ true

module _ (dumps : Payload → String) (json : (p : Payload) → IsJson (dumps p)) where
  abbrev pub seen : Event → Seen
  seen e = record { id = decimal e.sequence; kind = kind_of e.payload; payload = dumps e.payload }

  kind_on_line : (p : Payload) → all_chars on_line (kind_of p) ≡ true
  unfolding kind_of
  kind_on_line (log line) = refl
  kind_on_line (end e) = refl
  kind_on_line reset = refl

  json_on_line : (j : String) → IsJson j → all_chars on_line j ≡ true
  json_on_line String.[] h = absurd h
  json_on_line (String.◌∷◌ c j) h = h

  dispatch_json :
      (e : Seen) (j : String) (rest : List Seen) → IsJson j → dispatch e j rest ≡ e ∷ rest
  unfolding dispatch
  dispatch_json e String.[] rest h = absurd h
  dispatch_json e (String.◌∷◌ c j) rest h = refl

  split_lines-sse_frame :
      (e : Event) (rest : String)
      → split_lines (sse_frame dumps e rest)
        ≡ append "id: " (decimal e.sequence)
          ∷ append "event: " (kind_of e.payload)
          ∷ append "data: " (dumps e.payload)
          ∷ ""
          ∷ split_lines rest
  unfolding sse_frame
  split_lines-sse_frame e rest =
      split_lines-append (append "id: " (decimal e.sequence)) _
        (digits_on_line (decimal e.sequence) (all-decimal e.sequence))
      ∙ ap (λ ls. append "id: " (decimal e.sequence) ∷ ls)
          (split_lines-append (append "event: " (kind_of e.payload)) _ (kind_on_line e.payload)
            ∙ ap (λ ls. append "event: " (kind_of e.payload) ∷ ls)
                (split_lines-append (append "data: " (dumps e.payload)) (append "\n" rest)
                    (json_on_line (dumps e.payload) (json e.payload))
                  ∙ ap (λ ls. append "data: " (dumps e.payload) ∷ ls)
                      (split_lines-append "" rest refl)))

  read_stream-sse_frame :
      (e : Event) (rest : String) → read_stream (sse_frame dumps e rest) ≡ seen e ∷ read_stream rest
  unfolding read_stream read_lines field skip
  read_stream-sse_frame e rest =
      ap (read_lines blank) (split_lines-sse_frame e rest)
      ∙ dispatch_json (seen e) (dumps e.payload) (read_stream rest) (json e.payload)

  -- The events among the items.
  abbrev pub events_of : List Item → List Event
  events_of [] = []
  events_of (sent e ∷ is) = e ∷ events_of is
  events_of (keepalive ∷ is) = events_of is

  read_stream-keepalive :
      (rest : String) → read_stream (append ": keepalive\n\n" rest) ≡ read_stream rest
  unfolding read_stream split_lines put_line read_lines field skip dispatch
  read_stream-keepalive rest = ap (read_lines blank) (
      split_lines-append ": keepalive" (append "\n" rest) refl
      ∙ ap (λ ls. ": keepalive" ∷ ls) (split_lines-append "" rest refl))

  read_stream-retry :
      (rest : String) → read_stream (append "retry: 2000\n\n" rest) ≡ read_stream rest
  unfolding read_stream split_lines put_line read_lines field skip dispatch
  read_stream-retry rest = ap (read_lines blank) (
      split_lines-append "retry: 2000" (append "\n" rest) refl
      ∙ ap (λ ls. "retry: 2000" ∷ ls) (split_lines-append "" rest refl))

  read_stream-write_items :
      (is : List Item) → read_stream (write_items dumps is) ≡ map seen (events_of is)
  unfolding write_items
  read_stream-write_items [] = unfold read_stream split_lines read_lines dispatch in refl
  read_stream-write_items (sent e ∷ is) =
      read_stream-sse_frame e (write_items dumps is)
      ∙ ap (λ es. seen e ∷ es) (read_stream-write_items is)
  read_stream-write_items (keepalive ∷ is) =
      read_stream-keepalive (write_items dumps is) ∙ read_stream-write_items is

  -- The events that come before the reader is slow, up to the end event.
  pub until_end : List Got → List Event
  until_end [] = []
  until_end (slow ∷ gots) = []
  until_end (timed_out ∷ gots) = until_end gots
  until_end (entry e ∷ gots) =
      let rest = until_end gots in e ∷ (elim (is_end e.payload) [ true ↦ [] | false ↦ rest ])

  events_of-deliver : (gots : List Got) → events_of (deliver gots) ≡ until_end gots
  unfolding deliver until_end
  events_of-deliver [] = refl
  events_of-deliver (slow ∷ gots) = refl
  events_of-deliver (timed_out ∷ gots) = events_of-deliver gots
  events_of-deliver (entry e ∷ gots) = elim (Bool-cases (is_end e.payload)) [
    | inl h ↦ rw (h, deliver, until_end) refl
    | inr h ↦ rw (h, deliver, until_end) (ap (λ es. e ∷ es) (events_of-deliver gots))
  ]

  events_of-backlog :
      (es : List Event) (is : List Item) → events_of (map sent es ++ is) ≡ es ++ events_of is
  events_of-backlog [] is = refl
  events_of-backlog (e ∷ es) is = ap (λ r. e ∷ r) (events_of-backlog es is)

  events_of-items :
      (s : Subscription) (gots : List Got)
      → events_of (items s gots) ≡ s.backlog ++ (elim s.done [ true ↦ [] | false ↦ until_end gots ])
  unfolding items
  events_of-items s gots = events_of-backlog s.backlog _ ∙ ap (λ es. s.backlog ++ es) (rest s.done)
    where
      rest :
          (done : Bool)
          → events_of (elim done [ true ↦ [] | false ↦ deliver gots ])
            ≡ elim done [ true ↦ [] | false ↦ until_end gots ]
      rest true = refl
      rest false = events_of-deliver gots

  -- If json.dumps writes something and on one line, a reader of the stream finds the events of the backlog
  -- and then, unless the run had ended, those of the queue up to the end event or up to the marker of a
  -- slow reader: each with its number, its kind and its text, and in order, whatever keeps the connection
  -- alive in between.
  pub read_stream-stream_text :
      (s : Subscription) (gots : List Got)
      → read_stream (stream_text dumps s gots)
        ≡ map seen (s.backlog ++ (elim s.done [ true ↦ [] | false ↦ until_end gots ]))
  unfolding stream_text
  read_stream-stream_text s gots =
      read_stream-retry (write_items dumps (items s gots))
      ∙ (read_stream-write_items (items s gots) ∙ ap (map seen) (events_of-items s gots))
