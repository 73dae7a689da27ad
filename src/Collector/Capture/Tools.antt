-- ===== src/Collector/Capture/Tools.antt =====
-- The two readers of a capture agree.
use Prim.Native.Char.{code}
use srx.Prelude.{
  ℕ, ◌+◌, ◌-◌, ◌*◌, ◌≤◌, ◌≡◌, ◌≢◌, refl, ap, ◌∙◌, inl, inr, Bool, true, false, not, ◌&&◌, some,
  String, List, [], ◌∷◌, map, lookup, all, leb, nat_eq, All, eq_string, ◌==◌, Bool-cases, arith,
}
use native.Mathlib.Decide.{dec_lt}
use srx.Prelude.Int.{pos}
use srx.Prelude.Text.{
  codes, is_digit, is_white, all_white, strip_left, strip_right, decimal, digits_from, ascii,
  digits_value,
}
use srx.Prelude.Decimal.{digit_first, decimal-digit_first, all-decimal, digits_value-decimal}
use srx.Address.{is_ipv4}
use srx.Collector
use srx.Collector.{parse_int, proto_num}
use srx.Collector.Scan.{all_chars, ◌++◌}
use srx.Collector.Capture.{
  put_part, split_commas, Row, strip, row_of, bounded, port_of, ports_of, protocol_of, with_ports,
  tuple_of_row, read_row, add_some, extract_with_tshark, Transport, tcp, udp, neither, Packet,
  tuple_of_packet, extract_with_scapy,
}

-- `int(str(n))`
int_digits_lem :
    (acc : ℕ) (cs : List ℕ)
    → all is_digit cs ≡ true
    → Collector.int_digits acc true cs ≡ some (digits_value acc cs)
unfolding Collector.int_digits digits_value all
int_digits_lem acc [] h = refl
int_digits_lem acc (c ∷ cs) h = elim (Bool-cases (is_digit c)) [
  | inl e ↦ rw (e, Collector.int_digits) (int_digits_lem (acc * 10 + (c - 48)) cs (rw e at h))
  | inr e ↦ absurd (cc (rw e at h))
]

digits_signed :
    (cs : List ℕ)
    → digit_first cs ≡ true
    → all is_digit cs ≡ true
    → Collector.signed (Collector.strip_left cs) ≡ some (pos (digits_value 0 cs))
unfolding Collector.strip_left Collector.int_digits digits_value all
digits_signed [] h g = cc h
digits_signed (c ∷ cs) h g =
    let black : Collector.is_space c ≡ false = ground arith in
    let not_minus : nat_eq c b'-' ≡ false = ground arith in
    let not_plus : nat_eq c b'+' ≡ false = ground arith in
    rw (black, Collector.strip_left)
      (unfold Collector.signed in
        rw (not_minus, not_plus, h, Collector.int_digits)
          (ap Collector.positive (int_digits_lem (0 * 10 + (c - 48)) cs (rw h at g))))

parse_int-decimal : (n : ℕ) → parse_int (decimal n) ≡ some (pos n)
unfolding parse_int
parse_int-decimal n =
    digits_signed (codes (decimal n)) (decimal-digit_first n) (all-decimal n)
    ∙ ap (λ k. some (pos k)) (digits_value-decimal n)

-- Text of a column: no comma and no blank.
abbrev pub is_plain : ℕ → Bool
is_plain c = not (is_white c) && not (nat_eq c b',')

strip_left-is_plain : (s : String) → all_chars is_plain s ≡ true → strip_left s ≡ s
unfolding strip_left
strip_left-is_plain String.[] h = refl
strip_left-is_plain (String.◌∷◌ c s) h =
    let black : is_white (code c) ≡ false = ground arith in rw (black, strip_left) refl

strip_right-is_plain : (s : String) → all_chars is_plain s ≡ true → strip_right s ≡ s
unfolding strip_right all_white
strip_right-is_plain String.[] h = refl
strip_right-is_plain (String.◌∷◌ c s) h =
    let black : is_white (code c) ≡ false = ground arith in
    rw (black, strip_right) (ap (String.◌∷◌ c) (strip_right-is_plain s (ground arith)))

strip-is_plain : (s : String) → all_chars is_plain s ≡ true → strip s ≡ s
unfolding strip
strip-is_plain s h = ap strip_right (strip_left-is_plain s h) ∙ strip_right-is_plain s h

split_commas-append :
    (a rest : String)
    → all_chars is_plain a ≡ true
    → split_commas (a ++ ("," ++ rest)) ≡ a ∷ split_commas rest
unfolding split_commas put_part
split_commas-append String.[] rest h = refl
split_commas-append (String.◌∷◌ c a) rest h =
    let here : nat_eq (code c) b',' ≡ false = ground arith in
    rw (here, split_commas-append a rest (ground arith)) refl

split_commas-end : (a : String) → all_chars is_plain a ≡ true → split_commas a ≡ a ∷ []
unfolding split_commas put_part
split_commas-end String.[] h = refl
split_commas-end (String.◌∷◌ c a) h =
    let here : nat_eq (code c) b',' ≡ false = ground arith in
    rw (here, split_commas-end a (ground arith)) refl

digit_plain : (c : ℕ) → is_digit c ≡ true → is_plain c ≡ true
unfolding is_white
digit_plain c h = ground arith

digits_plain : (s : String) → all is_digit (codes s) ≡ true → all_chars is_plain s ≡ true
unfolding all
digits_plain String.[] h = refl
digits_plain (String.◌∷◌ c s) h = elim (Bool-cases (is_digit (code c))) [
  | inl e ↦ rw (digit_plain (code c) e) (digits_plain s (rw e at h))
  | inr e ↦ absurd (cc (rw e at h))
]

decimal-is_plain : (n : ℕ) → all_chars is_plain (decimal n) ≡ true
decimal-is_plain n = digits_plain (decimal n) (all-decimal n)

-- The fields of a packet as tshark prints them.
abbrev pub columns : Transport → String
columns (tcp s d) = decimal s ++ ("," ++ (decimal d ++ ",,"))
columns (udp s d) = ",," ++ (decimal s ++ ("," ++ decimal d))
columns neither = ",,,"

abbrev pub print_row : Packet → String
print_row p =
    p.src ++ ("," ++ (p.dst ++ ("," ++ (decimal p.proto ++ ("," ++ columns p.transport)))))

-- A packet whose protocol number tells its transport, and whose addresses are IPv4.
abbrev pub IsTransport : ℕ → Transport → Type 0
IsTransport n (tcp s d) = (n ≡ 6) × (s ≤ 65535) × (d ≤ 65535)
IsTransport n (udp s d) = (n ≡ 17) × (s ≤ 65535) × (d ≤ 65535)
IsTransport n neither = (n ≤ 255) × (n ≢ 6) × (n ≢ 17)

pub record IsPacket (p : Packet) : Type 0 where
  pub src_ipv4 : is_ipv4 (codes p.src) ≡ true
  pub dst_ipv4 : is_ipv4 (codes p.dst) ≡ true
  pub src_plain : all_chars is_plain p.src ≡ true
  pub dst_plain : all_chars is_plain p.dst ≡ true
  pub known : IsTransport p.proto p.transport

columns_of : Transport → List String
columns_of (tcp s d) = decimal s ∷ decimal d ∷ "" ∷ "" ∷ []
columns_of (udp s d) = "" ∷ "" ∷ decimal s ∷ decimal d ∷ []
columns_of neither = "" ∷ "" ∷ "" ∷ "" ∷ []

split_commas-columns : (t : Transport) → split_commas (columns t) ≡ columns_of t
unfolding columns_of
split_commas-columns (tcp s d) =
    split_commas-append (decimal s) (decimal d ++ ",,") (decimal-is_plain s)
    ∙ ap (λ l. decimal s ∷ l)
        (split_commas-append (decimal d) "," (decimal-is_plain d)
          ∙ unfold split_commas put_part in refl)
split_commas-columns (udp s d) =
    unfold split_commas put_part in
    ap (λ l. "" ∷ "" ∷ l)
      (split_commas-append (decimal s) (decimal d) (decimal-is_plain s)
        ∙ ap (λ l. decimal s ∷ l) (split_commas-end (decimal d) (decimal-is_plain d)))
split_commas-columns neither = unfold split_commas put_part in refl

split_commas-print_row :
    (p : Packet)
    → IsPacket p
    → split_commas (print_row p) ≡ p.src ∷ p.dst ∷ decimal p.proto ∷ columns_of p.transport
split_commas-print_row p g =
    split_commas-append p.src _ g.src_plain
    ∙ ap (λ l. p.src ∷ l)
        (split_commas-append p.dst _ g.dst_plain
          ∙ ap (λ l. p.dst ∷ l)
              (split_commas-append (decimal p.proto) (columns p.transport)
                  (decimal-is_plain p.proto)
                ∙ ap (λ l. decimal p.proto ∷ l) (split_commas-columns p.transport)))

decimal_nonempty : (n : ℕ) → (decimal n == "") ≡ false
decimal_nonempty n = elim (Bool-cases (decimal n == "")) [
  | inl q ↦ cc (
    ap (λ s. digit_first (codes s)) ((eq_string.beq_iff (decimal n) "").0 q),
    decimal-digit_first n,
  )
  | inr q ↦ q
]

port_of-decimal : (n : ℕ) → n ≤ 65535 → port_of (decimal n) ≡ some (some n)
unfolding port_of bounded
port_of-decimal n h =
    let small : leb n 65535 ≡ true = ground arith in
    rw (decimal_nonempty n, parse_int-decimal n, port_of, bounded, small) refl

number_of : (limit n : ℕ) → n ≤ limit → bounded limit (parse_int (decimal n)) ≡ some n
unfolding bounded
number_of limit n h =
    let small : leb n limit ≡ true = ground arith in rw (parse_int-decimal n, bounded, small) refl

-- The row of a packet.
abbrev row : Packet → Transport → Row
row p (tcp s d) = record {
  src = p.src;
  dst = p.dst;
  proto = decimal p.proto;
  tcp_src = decimal s;
  tcp_dst = decimal d;
  udp_src = "";
  udp_dst = "";
}
row p (udp s d) = record {
  src = p.src;
  dst = p.dst;
  proto = decimal p.proto;
  tcp_src = "";
  tcp_dst = "";
  udp_src = decimal s;
  udp_dst = decimal d;
}
row p neither = record {
  src = p.src;
  dst = p.dst;
  proto = decimal p.proto;
  tcp_src = "";
  tcp_dst = "";
  udp_src = "";
  udp_dst = "";
}

row_of_lem :
    (p : Packet) (t : Transport)
    → IsPacket p
    → row_of (p.src ∷ p.dst ∷ decimal p.proto ∷ columns_of t) ≡ some (row p t)
unfolding row_of columns_of
row_of_lem p (tcp s d) g =
    rw
      (
        strip-is_plain p.src g.src_plain,
        strip-is_plain p.dst g.dst_plain,
        strip-is_plain (decimal p.proto) (decimal-is_plain p.proto),
        strip-is_plain (decimal s) (decimal-is_plain s),
        strip-is_plain (decimal d) (decimal-is_plain d),
        strip-is_plain "" refl,
      )
      refl
row_of_lem p (udp s d) g =
    rw
      (
        strip-is_plain p.src g.src_plain,
        strip-is_plain p.dst g.dst_plain,
        strip-is_plain (decimal p.proto) (decimal-is_plain p.proto),
        strip-is_plain (decimal s) (decimal-is_plain s),
        strip-is_plain (decimal d) (decimal-is_plain d),
        strip-is_plain "" refl,
      )
      refl
row_of_lem p neither g =
    rw
      (
        strip-is_plain p.src g.src_plain,
        strip-is_plain p.dst g.dst_plain,
        strip-is_plain (decimal p.proto) (decimal-is_plain p.proto),
        strip-is_plain "" refl,
      )
      refl

protocol_of-six : protocol_of 6 ≡ "TCP"
unfolding protocol_of decimal digits_from ascii dec_lt lookup
protocol_of-six = refl

protocol_of-seventeen : protocol_of 17 ≡ "UDP"
unfolding protocol_of decimal digits_from ascii dec_lt lookup
protocol_of-seventeen = refl

tuple_of_row_lem :
    (p : Packet) (t : Transport)
    → IsPacket p
    → IsTransport p.proto t
    → tuple_of_row (row p t) ≡ some (tuple_of_packet p t)
unfolding tuple_of_row ports_of with_ports tuple_of_packet
tuple_of_row_lem p (tcp s d) g k =
    let named = ap protocol_of k.0 ∙ protocol_of-six in
    let is_tcp : nat_eq p.proto 6 ≡ true = ground arith in
    rw
      (
        g.src_ipv4,
        g.dst_ipv4,
        number_of 255 p.proto (omega arith),
        tuple_of_row,
        is_tcp,
        port_of-decimal s k.1,
        port_of-decimal d k.2,
        with_ports,
        named,
      )
      refl
tuple_of_row_lem p (udp s d) g k =
    let named = ap protocol_of k.0 ∙ protocol_of-seventeen in
    let not_tcp : nat_eq p.proto 6 ≡ false = ground arith in
    let is_udp : nat_eq p.proto 17 ≡ true = ground arith in
    rw
      (
        g.src_ipv4,
        g.dst_ipv4,
        number_of 255 p.proto (omega arith),
        tuple_of_row,
        not_tcp,
        is_udp,
        port_of-decimal s k.1,
        port_of-decimal d k.2,
        with_ports,
        named,
      )
      refl
tuple_of_row_lem p neither g k =
    let not_tcp : nat_eq p.proto 6 ≡ false = ground arith in
    let not_udp : nat_eq p.proto 17 ≡ false = ground arith in
    rw (g.src_ipv4, g.dst_ipv4, number_of 255 p.proto k.0, tuple_of_row, not_tcp, not_udp)
      (unfold port_of in refl)

read_row-print_row :
    (p : Packet) → IsPacket p → read_row (print_row p) ≡ some (tuple_of_packet p p.transport)
unfolding read_row
read_row-print_row p g =
    rw (split_commas-print_row p g, row_of_lem p p.transport g, read_row)
      (tuple_of_row_lem p p.transport g g.known)

abbrev pub print_rows : List Packet → List String
print_rows [] = []
print_rows (p ∷ pkts) = print_row p ∷ print_rows pkts

-- If the transport of each packet is the one its protocol number names and its addresses are IPv4
-- addresses with no comma or blank, the reader of what tshark prints for the packets and the reader
-- of the packets by scapy give the same tuples.
pub extract_with_tshark-print_rows :
    (pkts : List Packet)
    → All IsPacket pkts
    → extract_with_tshark (print_rows pkts) ≡ extract_with_scapy (map some pkts)
unfolding extract_with_tshark add_some extract_with_scapy
extract_with_tshark-print_rows [] g = refl
extract_with_tshark-print_rows (p ∷ pkts) g =
    rw (read_row-print_row p g.0, extract_with_tshark-print_rows pkts g.1) refl
