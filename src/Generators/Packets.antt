-- ===== src/Generators/Packets.antt =====
-- `PacketGenerator` of generators/packet_gen.py. The packets are given as far as the code sets their
-- fields; building and sending them is scapy's.
pub mod Flows
pub mod Fragments
mod Examples
use srx.Prelude.{
  ℕ, zero, suc, ◌+◌, ◌-◌, ◌*◌, Bool, true, false, Option, none, some, String, List, [], ◌∷◌, max,
  ltb, if◌then◌else◌,
}
use Prim.Native.String.{◌++◌ as append}
use srx.Prelude.Int.{ℤ, pos}
use srx.Prelude.Text.{decimal}
use srx.Telemetry.{FiveTuple, Stimulus, Stamp}

-- `IP(...) / TCP(...)`; a field that is none is scapy's default.
pub record Packet : Type 0 where
  pub src : String
  pub dst : String
  pub ttl : Option ℕ
  pub more_fragments : Bool
  pub frag : ℕ
  pub sport : ℕ
  pub dport : ℕ
  pub tcp_flags : Option String
  pub chksum : Option ℕ
  pub load : ℕ

pub record PacketGenerator : Type 0 where
  pub src_ip : String
  pub dst_ip : String

module _ (g : PacketGenerator) (sport : ℕ) (now : Stamp) where
  -- `FiveTuple(self.src_ip, self.dst_ip, "TCP", sport, dst_port)`
  unfoldable pub flow : ℕ → FiveTuple
  flow dst_port = record {
    src_ip = some g.src_ip;
    dst_ip = some g.dst_ip;
    protocol = some "TCP";
    src_port = some (pos sport);
    dst_port = some (pos dst_port);
  }

  unfoldable pub segment : ℕ → String → Packet
  segment dst_port tcp_flags = record {
    src = g.src_ip;
    dst = g.dst_ip;
    ttl = none;
    more_fragments = false;
    frag = 0;
    sport = sport;
    dport = dst_port;
    tcp_flags = some tcp_flags;
    chksum = none;
    load = 0;
  }

  unfoldable pub stimulus : ℕ → String → String → String → List String → Stimulus
  unfolding flow
  stimulus dst_port event_type payload_class detection_target expected_fields = record {
    five_tuple = flow dst_port;
    timestamp = now;
    expected_event_type = event_type;
    payload_class = payload_class;
    detection_target = detection_target;
    expected_fields = expected_fields;
    metadata = [];
  }

  unfoldable pub sent : Bool → List Packet → List Packet
  sent send packets = if send then packets else []

  unfoldable pub tcp_connection : ℕ → Bool → List Packet × Stimulus
  unfolding segment stimulus sent
  tcp_connection dst_port send = (
    sent send (segment dst_port "S" ∷ []),
    stimulus dst_port "RT_FLOW_SESSION_CREATE" "tcp-syn" "Session create"
        ("source-address" ∷ "destination-address" ∷ "policy-name" ∷ "application" ∷ []),
  )

  unfoldable pub tcp_to_denied_port : ℕ → Bool → List Packet × Stimulus
  unfolding segment stimulus sent
  tcp_to_denied_port denied_port send = (
    sent send (segment denied_port "S" ∷ []),
    stimulus denied_port "RT_FLOW_SESSION_DENY" "tcp-syn-denied" "Session deny"
        ("source-address" ∷ "destination-address" ∷ "destination-port" ∷ []),
  )

  abbrev anomaly_fields : List String
  anomaly_fields = "source-address" ∷ "destination-address" ∷ "attack-name" ∷ []

  unfoldable pub malformed_flags : ℕ → Bool → List Packet × Stimulus
  unfolding segment stimulus sent
  malformed_flags dst_port send = (
    sent send (segment dst_port "FS" ∷ []),
    stimulus dst_port "RT_SCREEN_TCP" "malformed-flags-synfin" "Malformed packets" anomaly_fields,
  )

  unfoldable pub bad_checksum : ℕ → Bool → List Packet × Stimulus
  unfolding segment stimulus sent
  bad_checksum dst_port send = (
    sent send (record (segment dst_port "S") { chksum = some 0xdead } ∷ []),
    stimulus dst_port "RT_SCREEN_TCP" "bad-checksum" "Malformed packets" anomaly_fields,
  )

  unfoldable pub tiny_ttl : ℕ → ℕ → Bool → List Packet × Stimulus
  unfolding segment stimulus sent
  tiny_ttl dst_port ttl send = (
    sent send (record (segment dst_port "S") { ttl = some ttl } ∷ []),
    stimulus dst_port "RT_SCREEN_IP" (append "tiny-ttl-" (decimal ttl)) "Malformed packets"
        anomaly_fields,
  )

  -- `b"X" * 64`
  abbrev pub payload_length : ℕ
  payload_length = 64

  -- The fragment of round `i`, in units of eight bytes at `max(0, i * 6 - 2)`.
  unfoldable pub fragment : ℕ → ℕ → ℕ → Packet
  unfolding segment
  fragment dst_port frag_count i = record {
    src = g.src_ip;
    dst = g.dst_ip;
    ttl = none;
    more_fragments = ltb i (frag_count - 1);
    frag = i * 6 - 2;
    sport = sport;
    dport = dst_port;
    tcp_flags = none;
    chksum = none;
    load = payload_length;
  }

  -- The rounds from `i` on.
  unfoldable pub fragments_from : ℕ → ℕ → ℕ → ℕ → List Packet
  unfolding fragment
  fragments_from dst_port frag_count i zero = []
  fragments_from dst_port frag_count i (suc rounds) =
      fragment dst_port frag_count i ∷ fragments_from dst_port frag_count (i + 1) rounds

  unfoldable pub overlapping_fragments : ℕ → ℕ → Bool → List Packet × Stimulus
  unfolding fragments_from stimulus sent
  overlapping_fragments dst_port frag_count send = (
    sent send (fragments_from dst_port frag_count 0 frag_count),
    stimulus dst_port "RT_SCREEN_IP" "overlapping-fragments" "Fragmentation" anomaly_fields,
  )
