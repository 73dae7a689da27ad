-- ===== src/Collector/Line/RoundTrip.antt =====
-- A printed line is read back.
use srx.Prelude.{
  ℕ, ◌≤◌, ◌≡◌, refl, ap, inl, inr, true, false, Option, none, some, String, List, [], ◌∷◌, map,
  nat_eq, nat_eq_iff, subst, leb, All, arith, Bool-cases,
}
use srx.Prelude.Text.{is_white, is_digit, all_white, strip_left, strip_right}
use srx.Telemetry.{Stamp}
use srx.Collector.{Pairs, event_of}
use srx.Collector.Scan.{
  size, is_empty, all_chars, all_chars-append, all_chars-imp, starts, span-append, span1-append,
  char_of, char_in, ◌++◌,
}
use srx.Collector.Line.{
  is_key, is_black, in_sd_id, word, priority, header, joined, assign_all, read_line, parse_stripped,
  parse_syslog_line,
}
use srx.Collector.Line.Printer.{
  escape, print_params, Element, print_elements, Header, print_header, print_message, print_line,
  IsWord, IsHeader, no_newline, IsPair, IsElement, IsMessage, ends_black, pairs_of,
}
use srx.Collector.Line.Elements.{chunk, is_tail, field_text-print_elements, find_pairs-joined}

-- `strip` leaves text with a black character at each end.
all_white-ends_black : (s : String) → ends_black s ≡ true → all_white s ≡ false
unfolding all_white
all_white-ends_black String.[] h = cc h
all_white-ends_black (String.◌∷◌ c String.[]) h = ground arith
all_white-ends_black (String.◌∷◌ c (String.◌∷◌ d s)) h =
    rw (all_white-ends_black (String.◌∷◌ d s) h, all_white) (ground arith)

strip_right_lem : (s : String) → ends_black s ≡ true → strip_right s ≡ s
unfolding strip_right
strip_right_lem String.[] h = refl
strip_right_lem (String.◌∷◌ c String.[]) h =
    rw (all_white-ends_black (String.◌∷◌ c String.[]) h, strip_right) refl
strip_right_lem (String.◌∷◌ c (String.◌∷◌ d s)) h =
    rw (all_white-ends_black (String.◌∷◌ c (String.◌∷◌ d s)) h, strip_right)
      (ap (String.◌∷◌ c) (strip_right_lem (String.◌∷◌ d s) h))

ends_black-append : (a b : String) → ends_black b ≡ true → ends_black (a ++ b) ≡ true
ends_black-append String.[] b h = h
ends_black-append (String.◌∷◌ c String.[]) String.[] h = cc h
ends_black-append (String.◌∷◌ c String.[]) (String.◌∷◌ d b) h = h
ends_black-append (String.◌∷◌ c (String.◌∷◌ d a)) b h = ends_black-append (String.◌∷◌ d a) b h

word_lem :
    (w s : String) → IsWord w → starts is_white s ≡ false → word (w ++ (" " ++ s)) ≡ some (w, s)
unfolding word
word_lem w s h k =
    rw
      (
        span1-append is_black w (" " ++ s) h.0 h.1 (unfold is_black is_white in refl),
        span1-append is_white " " s refl (unfold is_white in refl) k,
      )
      refl

starts-word : (w s : String) → IsWord w → starts is_white (w ++ s) ≡ false
unfolding is_black
starts-word String.[] s h = cc h.0
starts-word (String.◌∷◌ c w) s h = ground (arith, h.1)

priority_lem :
    (pri s : String)
    → is_empty pri ≡ false
    → all_chars is_digit pri ≡ true
    → size pri ≤ 3
    → starts is_white s ≡ false
    → priority ("<" ++ (pri ++ (">1 " ++ s))) ≡ some s
unfolding priority char_of char_in
priority_lem pri s n d l k =
    let few : leb (size pri) 3 ≡ true = ground arith in
    rw
      (
        span1-append is_digit pri (">1 " ++ s) n d refl,
        few,
        span-append is_digit "" (" " ++ s) refl refl,
        span1-append is_white " " s refl (unfold is_white in refl) k,
      )
      refl

header_lem :
    (h : Header) (body : String)
    → IsHeader h
    → starts is_white body ≡ false
    → all_chars no_newline body ≡ true
    → header (print_header h body) ≡ some (h.msgid, body)
unfolding header
header_lem h body g k n =
    let s5 : String = h.msgid ++ (" " ++ body) in
    let s4 : String = h.proc ++ (" " ++ s5) in
    let s3 : String = h.app ++ (" " ++ s4) in
    let s2 : String = h.host ++ (" " ++ s3) in
    let s1 : String = h.stamp ++ (" " ++ s2) in
    rw
      (
        priority_lem h.pri s1 g.some_digit g.digits g.few_digits
            (starts-word h.stamp (" " ++ s2) g.stamp_word),
        word_lem h.stamp s2 g.stamp_word (starts-word h.host (" " ++ s3) g.host_word),
        word_lem h.host s3 g.host_word (starts-word h.app (" " ++ s4) g.app_word),
        word_lem h.app s4 g.app_word (starts-word h.proc (" " ++ s5) g.proc_word),
        word_lem h.proc s5 g.proc_word (starts-word h.msgid (" " ++ body) g.msgid_word),
        word_lem h.msgid body g.msgid_word k,
        n,
      )
      refl

-- All characters of printed elements are on one line.
escape-no_newline :
    (v : String) → all_chars no_newline v ≡ true → all_chars no_newline (escape v) ≡ true
unfolding escape
escape-no_newline String.[] h = refl
escape-no_newline (String.◌∷◌ c v) h = ground (arith, escape-no_newline v)

sd_id_char : (c : ℕ) → in_sd_id c ≡ true → no_newline c ≡ true
unfolding is_white
sd_id_char c h = elim (Bool-cases (nat_eq c 10)) [
  | inl e ↦ cc (subst (λ x. in_sd_id x ≡ true) ((nat_eq_iff c 10).0 e) h)
  | inr e ↦ rw e refl
]

print_params-no_newline :
    (ps : Pairs) (rest : String)
    → All IsPair ps
    → all_chars no_newline rest ≡ true
    → all_chars no_newline (print_params ps rest) ≡ true
print_params-no_newline [] rest h n = n
print_params-no_newline ((k, v) ∷ ps) rest h n =
    all_chars-append no_newline k _ (all_chars-imp is_key no_newline k (λ c e. ground arith) h.0.1)
      (all_chars-append no_newline (escape v) _ (escape-no_newline v h.0.2)
        (print_params-no_newline ps rest h.1 n))

print_elements-no_newline :
    (es : List Element) (rest : String)
    → All IsElement es
    → all_chars no_newline rest ≡ true
    → all_chars no_newline (print_elements es rest) ≡ true
print_elements-no_newline [] rest h n = n
print_elements-no_newline ((id, ps) ∷ es) rest h n =
    all_chars-append no_newline id _ (all_chars-imp in_sd_id no_newline id sd_id_char h.0.1)
      (print_params-no_newline ps _ h.0.2 (print_elements-no_newline es rest h.1 n))

-- They end with a bracket, or with what follows.
print_params-ends_black :
    (ps : Pairs) (rest : String)
    → ends_black ("]" ++ rest) ≡ true
    → ends_black (print_params ps rest) ≡ true
print_params-ends_black [] rest h = h
print_params-ends_black ((k, v) ∷ ps) rest h =
    ends_black-append (" " ++ k) ("=\"" ++ (escape v ++ ("\"" ++ print_params ps rest))) (
      ends_black-append ("=\"" ++ escape v) ("\"" ++ print_params ps rest)
        (ends_black-append "\"" (print_params ps rest) (print_params-ends_black ps rest h)))

print_elements-ends_black :
    (e : Element) (es : List Element) (rest : String)
    → ends_black ("]" ++ rest) ≡ true
    → ends_black (print_elements (e ∷ es) rest) ≡ true
print_elements-ends_black (id, ps) [] rest h =
    ends_black-append ("[" ++ id) (print_params ps rest) (print_params-ends_black ps rest h)
print_elements-ends_black (id, ps) (d ∷ es) rest h =
    let later : String = print_elements (d ∷ es) rest in
    ends_black-append ("[" ++ id) (print_params ps later) (
      print_params-ends_black ps later
        (ends_black-append "]" later (print_elements-ends_black d es rest h)))

message-ends_black :
    (message : Option String) → IsMessage message → ends_black ("]" ++ print_message message) ≡ true
unfolding is_white
message-ends_black none h = refl
message-ends_black (some m) h = ends_black-append "] " m h.1

message-is_tail : (message : Option String) → is_tail (print_message message) ≡ true
message-is_tail none = refl
message-is_tail (some m) = refl

message-no_newline :
    (message : Option String)
    → IsMessage message
    → all_chars no_newline (print_message message) ≡ true
message-no_newline none h = refl
message-no_newline (some m) h = h.0

print_header-ends_black :
    (h : Header) (body : String) → ends_black body ≡ true → ends_black (print_header h body) ≡ true
print_header-ends_black h body k =
    let s5 : String = h.msgid ++ (" " ++ body) in
    let s4 : String = h.proc ++ (" " ++ s5) in
    let s3 : String = h.app ++ (" " ++ s4) in
    let s2 : String = h.host ++ (" " ++ s3) in
    let s1 : String = h.stamp ++ (" " ++ s2) in
    ends_black-append ("<" ++ h.pri) (">1 " ++ s1) (
      ends_black-append (">1 " ++ h.stamp) (" " ++ s2) (
        ends_black-append (" " ++ h.host) (" " ++ s3) (
          ends_black-append (" " ++ h.app) (" " ++ s4) (
            ends_black-append (" " ++ h.proc) (" " ++ s5)
              (ends_black-append (" " ++ h.msgid) (" " ++ body) (ends_black-append " " body k))))))

module _ (h : Header) (e : Element) (es : List Element) (message : Option String) (g : IsHeader h)
    (good : All IsElement (e ∷ es)) (m : IsMessage message) where
  strip-print_line :
      strip_right (strip_left (print_line h (e ∷ es) message)) ≡ print_line h (e ∷ es) message
  unfolding strip_left is_white
  strip-print_line = strip_right_lem (print_line h (e ∷ es) message) (
      print_header-ends_black h (print_elements (e ∷ es) (print_message message))
        (print_elements-ends_black e es (print_message message) (message-ends_black message m)))

  read_line-print_line :
      read_line (print_line h (e ∷ es) message) ≡ some (h.msgid, joined (map chunk (e ∷ es)))
  unfolding read_line
  read_line-print_line =
      rw
        (
          header_lem h (print_elements (e ∷ es) (print_message message)) g (unfold is_white in refl)
              (print_elements-no_newline (e ∷ es) (print_message message) good
                (message-no_newline message m)),
          g.msgid_tag,
          field_text-print_elements e es (print_message message) good (message-is_tail message),
          read_line,
        )
        refl

  -- A structured line is read back: the event has the message id as its type, and its fields and its
  -- tuple are those of all the parameters of all the elements, in order, with their values unescaped.
  -- The free text adds nothing. The header has a priority of at most three digits and words, the
  -- message id is a tag, every element has a name, every parameter a key, and no newline stands in
  -- a value or in the free text, which does not end with a blank.
  pub parse_syslog_line-print_line :
      (recv_time : Stamp)
      → parse_syslog_line (print_line h (e ∷ es) message) recv_time
        ≡ some (
            event_of h.msgid
              (assign_all [] (pairs_of (e ∷ es)))
              recv_time
              (print_line h (e ∷ es) message))
  unfolding parse_syslog_line parse_stripped
  parse_syslog_line-print_line recv_time =
      rw (strip-print_line, parse_stripped, read_line-print_line, find_pairs-joined e es good) refl
