-- ===== src/Collector.antt =====
-- collectors/syslog_collector.py: the event of a parsed line's fields, the framing of a TCP stream
-- into lines, and the ring buffer with its queries. The buffer's lock makes each operation one
-- step. Sockets, threads and the regular expressions of the line parser are not modelled.
pub mod Buffer
mod Examples
pub mod Framing
pub mod Scan
pub mod Line
pub mod Capture
use srx.Prelude.{
  ℕ, zero, suc, ◌+◌, ◌-◌, ◌*◌, ◌≡◌, refl, Bool, true, false, not, ◌&&◌, ◌||◌, Option, none, some,
  String, List, [], ◌∷◌, ◌++◌, keep, leb, ltb, nat_eq, length, drop, lookup, eq_string, ◌==◌,
  Result, ok, err, value_error, if◌then◌else◌,
}
use srx.Prelude.Int.{ℤ, pos, negsuc, sub_ℕ, ltb_ℤ, pos_part}
use srx.Prelude.Text.{codes, upper, is_digit}
use srx.Telemetry.{
  FiveTuple, TelemetryEvent, Value, text, Stamp, Fields, ltb_stamp, observation_matches,
}

-- The dictionary of a line: text for every key.
abbrev pub Pairs : Type 0
Pairs = List (String × String)

-- `_first`: the first key that is there with a text that is not empty.
pub first_of_keys : Pairs → List String → Option String
first_of_keys fields [] = none
first_of_keys fields (k ∷ keys) =
    let rest = first_of_keys fields keys in
    elim (lookup k fields) [ none ↦ rest | some v ↦ if v == "" then rest else some v ]

abbrev is_space : ℕ → Bool
is_space c = nat_eq c 32 || (leb 9 c && leb c 13) || (leb 28 c && leb c 31)

strip_left : List ℕ → List ℕ
strip_left [] = []
strip_left (c ∷ cs) = let rest = strip_left cs in if is_space c then rest else c ∷ cs

all_spaces : List ℕ → Bool
all_spaces [] = true
all_spaces (c ∷ cs) = is_space c && all_spaces cs

-- The digits behind the sign, with single underscores between digits and spaces at the end.
int_digits : ℕ → Bool → List ℕ → Option ℕ
unfolding all_spaces
int_digits acc after_digit [] = if after_digit then some acc else none
int_digits acc after_digit (c ∷ cs) =
    let more = int_digits (acc * 10 + (c - 48)) true cs in
    let joined = int_digits acc false cs in
    if is_digit c
    then more
    else if nat_eq c b'_' && after_digit
    then (elim cs [ [] ↦ none | d ∷ r ↦ if is_digit d then joined else none ])
    else if after_digit && all_spaces (c ∷ cs)
    then some acc
    else none

abbrev negated : Option ℕ → Option ℤ
negated none = none
negated (some n) = some (sub_ℕ 0 n)

abbrev positive : Option ℕ → Option ℤ
positive none = none
positive (some n) = some (pos n)

signed : List ℕ → Option ℤ
unfolding int_digits
signed [] = none
signed (c ∷ cs) =
    if nat_eq c b'-'
    then negated (int_digits 0 false cs)
    else if nat_eq c b'+'
    then positive (int_digits 0 false cs)
    else positive (int_digits 0 false (c ∷ cs))

-- `int(val)` of ASCII text, None where it raises ValueError.
pub parse_int : String → Option ℤ
unfolding signed strip_left
parse_int s = signed (strip_left (codes s))

-- `_to_int`
pub to_int : Option String → Option ℤ
unfolding parse_int
to_int none = none
to_int (some val) = parse_int val

abbrev src_ip_keys : List String
src_ip_keys = "source-address" ∷ "src-ip" ∷ "nat-source-address" ∷ []

abbrev dst_ip_keys : List String
dst_ip_keys = "destination-address" ∷ "dst-ip" ∷ "nat-destination-address" ∷ []

abbrev src_port_keys : List String
src_port_keys = "source-port" ∷ "src-port" ∷ []

abbrev dst_port_keys : List String
dst_port_keys = "destination-port" ∷ "dst-port" ∷ []

abbrev proto_keys : List String
proto_keys = "protocol-id" ∷ "protocol" ∷ "ip-protocol" ∷ []

abbrev pub proto_num : Pairs
proto_num = ("1", "ICMP") ∷ ("6", "TCP") ∷ ("17", "UDP") ∷ ("47", "GRE") ∷ ("50", "ESP") ∷ []

-- A known number becomes its name, and any other text is upper-cased.
pub protocol_name : Option String → Option String
protocol_name none = none
protocol_name (some raw) = elim (lookup raw proto_num) [
  | none ↦ some (upper raw)
  | some name ↦ some name
]

pub tuple_of : Pairs → FiveTuple
unfolding first_of_keys to_int protocol_name
tuple_of fields = record {
  src_ip = first_of_keys fields src_ip_keys;
  dst_ip = first_of_keys fields dst_ip_keys;
  protocol = protocol_name (first_of_keys fields proto_keys);
  src_port = to_int (first_of_keys fields src_port_keys);
  dst_port = to_int (first_of_keys fields dst_port_keys);
}

as_fields : Pairs → Fields
as_fields [] = []
as_fields ((k, v) ∷ fields) = (k, text v) ∷ as_fields fields

-- The event that `parse_syslog_line` returns for the tag and the fields of a line.
pub event_of : String → Pairs → Stamp → String → TelemetryEvent
unfolding tuple_of as_fields
event_of event_type fields recv_time line = record {
  event_type = event_type;
  five_tuple = tuple_of fields;
  timestamp = recv_time;
  fields = as_fields fields;
  raw = line;
}

pub record Collector : Type 0 where
  pub max_events : ℕ
  pub events : List TelemetryEvent
  pub dropped_events : ℕ

-- `SyslogCollector.__init__`
pub new : ℤ → Result Collector
new max_events =
    if ltb_ℤ (pos 0) max_events
    then ok (record { max_events = pos_part max_events; events = []; dropped_events = 0 })
    else err value_error

-- `deque.append` with a `maxlen`: a full deque loses its first entry.
abbrev pub push {ℓ} : {A : Type ℓ} → ℕ → List A → A → List A
push cap xs x = if nat_eq (length xs) cap then drop 1 (xs ++ x ∷ []) else xs ++ x ∷ []

pub add_event : Collector → TelemetryEvent → Collector
add_event c event = record c {
  dropped_events =
      if nat_eq (length c.events) c.max_events then c.dropped_events + 1 else c.dropped_events;
  events = push c.max_events c.events event;
}

pub clear : Collector → Collector
clear c = record c { events = [] }

pub snapshot : Collector → List TelemetryEvent
snapshot c = c.events

-- The four `continue` tests of `query`.
pub selected :
    Option String → Option FiveTuple → Option Stamp → Option Stamp → TelemetryEvent → Bool
selected event_type five_tuple start_time end_time ev =
    elim event_type [ none ↦ true | some t ↦ ev.event_type == t ]
    && (elim five_tuple [ none ↦ true | some t ↦ observation_matches t ev.five_tuple ]
        && (elim start_time [ none ↦ true | some t ↦ not (ltb_stamp ev.timestamp t) ]
            && elim end_time [ none ↦ true | some t ↦ not (ltb_stamp t ev.timestamp) ]))

pub query :
    Collector → Option String → Option FiveTuple → Option Stamp → Option Stamp → List TelemetryEvent
query c event_type five_tuple start_time end_time =
    keep (selected event_type five_tuple start_time end_time) c.events

-- The byte in front of the split of what follows it.
pub extended : ℕ → Option (List ℕ × List ℕ) → Option (List ℕ × List ℕ)
extended b none = none
extended b (some (l, rest)) = some (b ∷ l, rest)

-- `buf.split(b"\n", 1)`, none where no newline is in the buffer.
pub split_line : List ℕ → Option (List ℕ × List ℕ)
split_line [] = none
split_line (b ∷ buf) = elim (nat_eq b 10) [
  | true ↦ some ([], buf)
  | false ↦ extended b (split_line buf)
]

-- The inner `while` loop: the lines that are handed on, and the buffer that is left. Each round
-- shortens the buffer, so its length is fuel enough.
pub drain : ℕ → List ℕ → List (List ℕ) × List ℕ
drain zero buf = ([], buf)
drain (suc fuel) buf = elim (split_line buf) [
  | none ↦ ([], buf)
  | some (l, rest) ↦ let (ls, left) = drain fuel rest in (l ∷ ls, left)
]

-- One received chunk.
pub receive : List ℕ → List ℕ → List (List ℕ) × List ℕ
receive buf chunk = drain (length (buf ++ chunk)) (buf ++ chunk)

-- A connection from its first chunk to its last; what is left in the buffer is dropped.
pub connection : List ℕ → List (List ℕ) → List (List ℕ) × List ℕ
connection buf [] = ([], buf)
connection buf (chunk ∷ chunks) =
    let (ls, left) = receive buf chunk in
    let (more, end) = connection left chunks in (ls ++ more, end)
