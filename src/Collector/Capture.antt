-- ===== src/Collector/Capture.antt =====
-- collectors/pcap_capture.py: the command and the process of a capture, and the tuples that tshark or
-- scapy read from it. The binaries on the PATH, the process and what the tools print are given.
pub mod Tools
mod Examples
use Prim.Native.Char.{Char, code}
use srx.Prelude.{
  ℕ, zero, suc, Bool, true, false, not, ◌&&◌, ◌||◌, Option, none, some, String, List, [], ◌∷◌, ◌++◌,
  leb, nat_eq, length, lookup, eq_string, ◌==◌, Result, ok, err, Error, value_error, os_error,
  runtime_error, ◌>>=◌, if◌then◌else◌,
}
use srx.Prelude.Int.{ℤ, pos, negsuc}
use srx.Prelude.Text.{codes, lower, decimal, strip_left, strip_right}
use srx.Address.{is_ipv4}
use srx.Telemetry.{FiveTuple}
use srx.Collector.{Pairs, parse_int, proto_num}

-- `_require_binary`; FileNotFoundError is an OSError.
unfoldable pub require_binary : (String → Option String) → String → Result String
require_binary which name = elim (which name) [ none ↦ err os_error | some path ↦ ok path ]

pub record PcapCapture : Type 0 where
  pub interface : String
  pub output_path : String
  pub tool : String
  pub bpf_filter : Option String
  pub snaplen : ℕ
  pub has_process : Bool

unfoldable pub new : String → String → String → Option String → ℕ → PcapCapture
new interface output_path tool bpf_filter snaplen = record {
  interface = interface;
  output_path = output_path;
  tool = lower tool;
  bpf_filter = bpf_filter;
  snaplen = snaplen;
  has_process = false;
}

-- `if self.bpf_filter`
unfoldable pub filter_args : List String → Option String → List String
filter_args flag none = []
filter_args flag (some f) = if f == "" then [] else flag ++ f ∷ []

unfoldable pub base_args : PcapCapture → List String
base_args c = "-i" ∷ c.interface ∷ "-w" ∷ c.output_path ∷ "-s" ∷ decimal c.snaplen ∷ []

unfoldable pub build_cmd : (String → Option String) → PcapCapture → Result (List String)
build_cmd which c =
    if c.tool == "tshark"
    then (require_binary which "tshark" >>= λ binary.
        ok ((binary ∷ base_args c) ++ filter_args ("-f" ∷ []) c.bpf_filter))
    else if c.tool == "tcpdump"
    then (require_binary which "tcpdump" >>= λ binary.
        ok ((binary ∷ base_args c) ++ ("-U" ∷ filter_args [] c.bpf_filter)))
    else err value_error

-- What the start of the process comes to: it raises, it has ended after a second, or it runs.
pub data Launch : Type 0 where
  raises : Error → Launch
  ended running : Launch

-- `start`, behind the creation of the folder. A process that has ended is kept all the same.
unfoldable pub start :
    (String → Option String) → Launch → PcapCapture → PcapCapture × Result (List String)
start which (raises e) c = (c, build_cmd which c >>= λ cmd. err e)
start which ended c = elim (build_cmd which c) [
  | err e ↦ (c, err e)
  | ok cmd ↦ (record c { has_process = true }, err runtime_error)
]
start which running c = elim (build_cmd which c) [
  | err e ↦ (c, err e)
  | ok cmd ↦ (record c { has_process = true }, ok cmd)
]

unfoldable pub stop : PcapCapture → PcapCapture
stop c = record c { has_process = false }

unfoldable pub put_part : Bool → Char → List String → List String
put_part true c parts = "" ∷ parts
put_part false c [] = String.◌∷◌ c String.[] ∷ []
put_part false c (p ∷ parts) = String.◌∷◌ c p ∷ parts

-- `line.split(",")`
unfoldable pub split_commas : String → List String
split_commas String.[] = "" ∷ []
split_commas (String.◌∷◌ c s) = put_part (nat_eq (code c) b',') c (split_commas s)

-- The columns of a line, each stripped.
pub record Row : Type 0 where
  pub src : String
  pub dst : String
  pub proto : String
  pub tcp_src : String
  pub tcp_dst : String
  pub udp_src : String
  pub udp_dst : String

unfoldable pub strip : String → String
strip s = strip_right (strip_left s)

unfoldable pub row_of : List String → Option Row
row_of (a ∷ b ∷ c ∷ d ∷ e ∷ f ∷ g ∷ []) = some (record {
  src = strip a;
  dst = strip b;
  proto = strip c;
  tcp_src = strip d;
  tcp_dst = strip e;
  udp_src = strip f;
  udp_dst = strip g;
})
row_of _ = none

-- A natural number of at most the bound.
unfoldable pub bounded : ℕ → Option ℤ → Option ℕ
bounded limit none = none
bounded limit (some (pos n)) = if leb n limit then some n else none
bounded limit (some (negsuc n)) = none

-- `int(port) if port else None`, where a bad port drops the row.
unfoldable pub port_of : String → Option (Option ℕ)
port_of s =
    if s == ""
    then some none
    else (elim (bounded 65535 (parse_int s)) [ none ↦ none | some n ↦ some (some n) ])

unfoldable pub ports_of : Row → ℕ → String × String
ports_of r proto =
    if nat_eq proto 6
    then (r.tcp_src, r.tcp_dst)
    else if nat_eq proto 17
    then (r.udp_src, r.udp_dst)
    else ("", "")

unfoldable pub protocol_of : ℕ → String
protocol_of n = elim (lookup (decimal n) proto_num) [ none ↦ decimal n | some name ↦ name ]

unfoldable pub as_port : Option ℕ → Option ℤ
as_port none = none
as_port (some n) = some (pos n)

unfoldable pub tuple : String → String → String → Option ℕ → Option ℕ → FiveTuple
tuple src dst protocol sport dport = record {
  src_ip = some src;
  dst_ip = some dst;
  protocol = some protocol;
  src_port = as_port sport;
  dst_port = as_port dport;
}

unfoldable pub with_ports : Row → ℕ → Option (Option ℕ) → Option (Option ℕ) → Option FiveTuple
with_ports r proto (some sport) (some dport) =
    some (tuple r.src r.dst (protocol_of proto) sport dport)
with_ports r proto none dport = none
with_ports r proto (some sport) none = none

unfoldable pub tuple_of_row : Row → Option FiveTuple
tuple_of_row r =
    if is_ipv4 (codes r.src) && is_ipv4 (codes r.dst)
    then (elim (bounded 255 (parse_int r.proto)) [
      | none ↦ none
      | some n ↦ with_ports r n (port_of (ports_of r n).0) (port_of (ports_of r n).1)
    ])
    else none

unfoldable pub read_row : String → Option FiveTuple
read_row line = elim (row_of (split_commas line)) [ none ↦ none | some r ↦ tuple_of_row r ]

unfoldable pub add_some : Option FiveTuple → List FiveTuple → List FiveTuple
add_some none tuples = tuples
add_some (some t) tuples = t ∷ tuples

-- `_extract_with_tshark`, from the lines that tshark prints.
unfoldable pub extract_with_tshark : List String → List FiveTuple
extract_with_tshark [] = []
extract_with_tshark (line ∷ lines) = add_some (read_row line) (extract_with_tshark lines)

-- What scapy finds in a packet: TCP or UDP with its ports, or neither.
pub data Transport : Type 0 where
  tcp udp : ℕ → ℕ → Transport
  neither : Transport

pub record Packet : Type 0 where
  pub src : String
  pub dst : String
  pub proto : ℕ
  pub transport : Transport

unfoldable pub tuple_of_packet : Packet → Transport → FiveTuple
tuple_of_packet p (tcp s d) = tuple p.src p.dst "TCP" (some s) (some d)
tuple_of_packet p (udp s d) = tuple p.src p.dst "UDP" (some s) (some d)
tuple_of_packet p neither = tuple p.src p.dst (protocol_of p.proto) none none

-- `_extract_with_scapy`; none is a packet with no IP layer.
unfoldable pub extract_with_scapy : List (Option Packet) → List FiveTuple
extract_with_scapy [] = []
extract_with_scapy (none ∷ pkts) = extract_with_scapy pkts
extract_with_scapy (some p ∷ pkts) = tuple_of_packet p p.transport ∷ extract_with_scapy pkts

-- The command that prints the fields of a capture.
unfoldable pub read_cmd : String → PcapCapture → List String
read_cmd binary c =
    (binary ∷ "-r" ∷ c.output_path ∷ "-T" ∷ "fields" ∷ [])
    ++ (("-e" ∷ "ip.src" ∷ "-e" ∷ "ip.dst" ∷ "-e" ∷ "ip.proto" ∷ "-e" ∷ "tcp.srcport" ∷ "-e"
          ∷ "tcp.dstport" ∷ "-e" ∷ "udp.srcport" ∷ "-e" ∷ "udp.dstport" ∷ [])
        ++ ("-E" ∷ "separator=," ∷ "-E" ∷ "occurrence=f" ∷ []))

-- `extract_five_tuples`, from what tshark prints, or raises, for its command and what scapy reads, or
-- raises.
unfoldable pub extract_five_tuples :
    (String → Option String)
    → (List String → Result (List String))
    → Result (List (Option Packet))
    → PcapCapture
    → Result (List FiveTuple)
extract_five_tuples which run scapy c = elim (which "tshark") [
  | some binary ↦ (run (read_cmd binary c) >>= λ lines. ok (extract_with_tshark lines))
  | none ↦ (scapy >>= λ pkts. ok (extract_with_scapy pkts))
]
