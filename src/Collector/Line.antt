-- ===== src/Collector/Line.antt =====
-- `parse_syslog_line` of collectors/syslog_collector.py, with its regular expressions read from left to
-- right. The receive time is given.
mod Printer
mod Matches
mod Elements
pub mod RoundTrip
mod Examples
use Prim.Native.Char.{Char, code}
use srx.Prelude.{
  ℕ, zero, suc, ◌-◌, ◌+◌, Bool, true, false, not, ◌&&◌, ◌||◌, Option, none, some, is_some, String,
  List, [], ◌∷◌, all, leb, ltb, nat_eq, eq_string, ◌==◌, if◌then◌else◌, length,
}
use srx.Prelude.Text.{codes, split, is_digit, is_upper, is_alnum, is_white, strip_left, strip_right}
use srx.Telemetry.{TelemetryEvent, Stamp}
use srx.Collector.{Pairs, event_of}
use srx.Collector.Scan.{◌>>=◌, size, is_empty, span, span1, char_in, char_of, all_chars, ◌++◌}

unfoldable pub is_black : ℕ → Bool
is_black c = not (is_white c)

-- `_KEY`
abbrev pub is_key : ℕ → Bool
is_key c = is_alnum c || (nat_eq c b'_' || (nat_eq c b'-' || nat_eq c b'.'))

abbrev pub is_tag_letter : ℕ → Bool
is_tag_letter c = is_upper c || is_digit c

unfoldable pub first_part : List ℕ → Bool
first_part [] = false
first_part (c ∷ cs) = is_upper c && (leb 1 (length cs) && all is_tag_letter cs)

unfoldable pub later_part : List ℕ → Bool
later_part cs = leb 1 (length cs) && all is_tag_letter cs

unfoldable pub tag_parts : List (List ℕ) → Bool
tag_parts [] = false
tag_parts (p ∷ parts) = first_part p && (leb 1 (length parts) && all later_part parts)

-- `_TAG_RE.fullmatch`
unfoldable pub is_tag : String → Bool
is_tag s = tag_parts (split b'_' (codes s))

-- What stands behind an opening quote: `(?:\\.|[...])*"` for the class of the other characters, as the
-- text up to the closing quote and the rest behind it.
unfoldable pub quoted : (ℕ → Bool) → String → Option (String × String)
quoted bare String.[] = none
quoted bare (String.◌∷◌ c String.[]) =
    if nat_eq (code c) b'"' then some (String.[], String.[]) else none
quoted bare (String.◌∷◌ c (String.◌∷◌ d s)) =
    let escaped = quoted bare s >>= λ q. some (String.◌∷◌ c (String.◌∷◌ d q.0), q.1) in
    let more = quoted bare (String.◌∷◌ d s) >>= λ q. some (String.◌∷◌ c q.0, q.1) in
    if nat_eq (code c) b'\\'
    then (if nat_eq (code d) 10 then none else escaped)
    else if nat_eq (code c) b'"'
    then some (String.[], String.◌∷◌ d s)
    else if bare (code c)
    then more
    else none

-- `_QUOTED` and `_SD_QUOTED` behind the opening quote
abbrev pub in_quotes : ℕ → Bool
in_quotes c = not (nat_eq c b'"') && not (nat_eq c b'\\')

abbrev pub in_sd_quotes : ℕ → Bool
in_sd_quotes c = in_quotes c && not (nat_eq c b']')

-- `\s+_KEY=_SD_QUOTED`: the text that matches, and the rest.
unfoldable pub sd_param : String → Option (String × String)
sd_param s = do
  w ← span1 is_white s
  k ← span1 is_key w.1
  s ← char_of b'=' k.1
  s ← char_of b'"' s
  v ← quoted in_sd_quotes s
  some (w.0 ++ (k.0 ++ ("=\"" ++ (v.0 ++ "\""))), v.1)

-- The parameters of an element and its closing bracket.
unfoldable pub sd_params : ℕ → String → Option (String × String)
sd_params zero s = none
sd_params (suc fuel) s = elim (sd_param s) [
  | none ↦ (char_of b']' s >>= λ rest. some ("]", rest))
  | some (p, s') ↦ (sd_params fuel s' >>= λ r. some (p ++ r.0, r.1))
]

abbrev pub in_sd_id : ℕ → Bool
in_sd_id c =
    not (is_white c) && (not (nat_eq c b']') && (not (nat_eq c b'"') && not (nat_eq c b'=')))

-- `_SD_RE.match`
unfoldable pub sd_element : String → Option (String × String)
sd_element s = do
  t ← char_of b'[' s
  i ← span1 in_sd_id t
  p ← sd_params (suc (size i.1)) i.1
  some ("[" ++ (i.0 ++ p.0), p.1)

-- The `while` loop over the elements: `chunks` and what stands behind them.
unfoldable pub sd_elements : ℕ → String → Option (List String × String)
sd_elements zero s = none
sd_elements (suc fuel) s = elim (is_some (char_of b'[' s)) [
  | false ↦ some ([], s)
  | true ↦ (sd_element s >>= λ e. sd_elements fuel e.1 >>= λ r. some (e.0 ∷ r.0, r.1))
]

-- `" ".join(chunks)`
unfoldable pub joined : List String → String
joined [] = ""
joined (c ∷ []) = c
joined (c ∷ d ∷ chunks) = c ++ (" " ++ joined (d ∷ chunks))

-- The text of the fields, from the chunks and what is left of the body.
unfoldable pub checked_chunks : List String × String → Option String
checked_chunks ([], rest) = none
checked_chunks (c ∷ chunks, String.[]) = some (joined (c ∷ chunks))
checked_chunks (c ∷ chunks, String.◌∷◌ x rest) =
    if nat_eq (code x) 32 then some (joined (c ∷ chunks)) else none

-- `body == "-" or body.startswith("- ")`
unfoldable pub is_nil_body : String → Bool
is_nil_body String.[] = false
is_nil_body (String.◌∷◌ c String.[]) = nat_eq (code c) b'-'
is_nil_body (String.◌∷◌ c (String.◌∷◌ d s)) = nat_eq (code c) b'-' && nat_eq (code d) 32

unfoldable pub field_text : String → Option String
field_text body =
    if is_nil_body body then some "" else (sd_elements (suc (size body)) body >>= checked_chunks)

-- `\S+\s+`
unfoldable pub word : String → Option (String × String)
word s = do w ← span1 is_black s; r ← span1 is_white w.1; some (w.0, r.1)

-- `^<\d{1,3}>[1-9]\d*\s+`
unfoldable pub priority : String → Option String
priority s = do
  s ← char_of b'<' s
  d ← span1 is_digit s
  s ← (if leb (size d.0) 3 then char_of b'>' d.1 else none)
  s ← char_in (λ c. leb b'1' c && leb c b'9') s
  r ← span1 is_white (span is_digit s).1
  some r.1

-- `_HEADER_RE.match`: the message id and the body.
unfoldable pub header : String → Option (String × String)
header s = do
  s ← priority s
  stamp ← word s
  host ← word stamp.1
  app ← word host.1
  proc ← word app.1
  msgid ← word proc.1
  (if all_chars (λ c. not (nat_eq c 10)) msgid.1 then some msgid else none)

-- `re.match(r'^<\d+>\d+\s', line)`
unfoldable pub is_broken_header : String → Bool
is_broken_header s = is_some (do
  s ← char_of b'<' s
  d ← span1 is_digit s
  s ← char_of b'>' d.1
  v ← span1 is_digit s
  char_in is_white v.1)

unfoldable pub skip : String → String → Option String
skip String.[] s = some s
skip (String.◌∷◌ c p) String.[] = none
skip (String.◌∷◌ c p) (String.◌∷◌ d s) =
    let rest = skip p s in if nat_eq (code c) (code d) then rest else none

-- `RT_[A-Z0-9]+_` in front of something, or one of the other prefixes.
unfoldable pub is_family : String → Bool
is_family w =
    is_some
      (do s ← skip "RT_" w; a ← span1 is_tag_letter s; s ← char_of b'_' a.1; char_in (λ c. true) s)
    || (is_some (skip "APPTRACK_" w >>= char_in (λ c. true))
        || (is_some (skip "WEBFILTER_" w >>= char_in (λ c. true))
            || is_some (skip "AV_" w >>= char_in (λ c. true))))

-- `(?=[:\s]|$)`
unfoldable pub is_tag_end : String → Bool
is_tag_end String.[] = true
is_tag_end (String.◌∷◌ c s) = nat_eq (code c) b':' || is_white (code c)

unfoldable pub legacy_tag_here : String → Option (String × String)
legacy_tag_here s =
    let w = span (λ c. is_tag_letter c || nat_eq c b'_') s in
    if is_family w.0 && is_tag_end w.1 then some w else none

-- `_LEGACY_TAG_RE.search`: the tag and what stands behind it. The flag tells whether no character or a
-- blank stands in front.
unfoldable pub legacy_tag : Bool → String → Option (String × String)
legacy_tag free String.[] = none
legacy_tag free (String.◌∷◌ c s) =
    let later = legacy_tag (is_white (code c)) s in
    if free
    then (elim (legacy_tag_here (String.◌∷◌ c s)) [ none ↦ later | some t ↦ some t ])
    else later

unfoldable pub legacy : String → Option (String × String)
legacy s =
    let p = span (λ c. not (nat_eq c b'[') && not (nat_eq c b'=')) s in
    if is_broken_header s then none else legacy_tag true p.0 >>= λ t. some (t.0, t.1 ++ p.1)

-- `re.sub(r'\\(["\\\]])', r'\1', value)`
unfoldable pub unescape : String → String
unescape String.[] = String.[]
unescape (String.◌∷◌ c String.[]) = String.◌∷◌ c String.[]
unescape (String.◌∷◌ c (String.◌∷◌ d s)) =
    let escaped = String.◌∷◌ d (unescape s) in
    let plain = String.◌∷◌ c (unescape (String.◌∷◌ d s)) in
    if nat_eq (code c) b'\\'
      && (nat_eq (code d) b'"' || (nat_eq (code d) b'\\' || nat_eq (code d) b']'))
    then escaped
    else plain

-- One value behind `=`: with quotes, or `[^\s\]"]+`. With it comes how many characters match.
unfoldable pub value_at : String → Option (String × ℕ)
value_at s = elim (char_of b'"' s) [
  | some t ↦ (quoted in_quotes t >>= λ q. some (unescape q.0, size q.0 + 2))
  | none ↦
      (span1 (λ c. not (is_white c) && (not (nat_eq c b']') && not (nat_eq c b'"'))) s >>= λ v.
      some (v.0, size v.0))
]

-- `_KV_RE` at one place: the key, the value and how many characters match.
unfoldable pub pair_at : String → Option ((String × String) × ℕ)
pair_at s = do
  k ← span1 is_key s
  t ← char_of b'=' k.1
  v ← value_at t
  some ((k.0, v.0), size k.0 + 1 + v.1)

-- `_KV_RE.finditer`; the first so many characters belong to the match before.
unfoldable pub find_pairs : ℕ → String → Pairs
find_pairs skipped String.[] = []
find_pairs (suc skipped) (String.◌∷◌ c s) = find_pairs skipped s
find_pairs zero (String.◌∷◌ c s) = elim (pair_at (String.◌∷◌ c s)) [
  | none ↦ find_pairs zero s
  | some (kv, n) ↦ kv ∷ find_pairs (n - 1) s
]

-- `fields[k] = v`
unfoldable pub assign : String → String → Pairs → Pairs
assign k v [] = (k, v) ∷ []
assign k v ((j, w) ∷ m) = if j == k then (k, v) ∷ m else (j, w) ∷ assign k v m

unfoldable pub assign_all : Pairs → Pairs → Pairs
assign_all fields [] = fields
assign_all fields ((k, v) ∷ more) = assign_all (assign k v fields) more

-- The event type and the text of the fields of a stripped line.
unfoldable pub read_line : String → Option (String × String)
read_line line = elim (header line) [
  | some (msgid, body) ↦ if is_tag msgid then (field_text body >>= λ t. some (msgid, t)) else none
  | none ↦ legacy line
]

unfoldable pub parse_stripped : String → Stamp → Option TelemetryEvent
parse_stripped String.[] recv_time = none
parse_stripped (String.◌∷◌ c s) recv_time = read_line (String.◌∷◌ c s) >>= λ r.
    some (event_of r.0 (assign_all [] (find_pairs 0 r.1)) recv_time (String.◌∷◌ c s))

unfoldable pub parse_syslog_line : String → Stamp → Option TelemetryEvent
parse_syslog_line line recv_time = parse_stripped (strip_right (strip_left line)) recv_time
