-- ===== src/Generators/Packets/Examples.antt =====
-- The statements about packets at fragments that the firewall reports.
use srx.Prelude.{
  ◌+◌, ◌*◌, ◌≡◌, ◌<◌, refl, inl, inr, true, false, some, [], ◌∷◌, get_elem?, In, all, none, arith,
}
use srx.Prelude.Int.{pos, ◌+ℤ◌, ◌-ℤ◌}
use srx.Prelude.Text.{split}
use srx.Address.{is_ip_address}
use srx.Telemetry.{TelemetryEvent, finite, within_window}
use srx.Correlator.{Correlator, correlate}
use srx.Generators.Packets.{Packet, PacketGenerator, overlapping_fragments}
use srx.Generators.Packets.Flows.{fragments, flow_of, generate, correlate-generate}
use srx.Generators.Packets.Fragments.{overlapping_fragments-overlap}

abbrev lab : PacketGenerator
lab = record { src_ip = "10.0.0.1"; dst_ip = "10.0.0.2" }

overlapping_fragments-overlap_example :
    (p : Packet) × (q : Packet) × (get_elem?
        (overlapping_fragments lab 40000 (finite (pos 100)) 80 3 true).0
        1
      ≡ some p)
    × (get_elem? (overlapping_fragments lab 40000 (finite (pos 100)) 80 3 true).0 2 ≡ some q)
    × (p.more_fragments ≡ true)
    × (p.frag < q.frag)
    × (8 * q.frag < 8 * p.frag + p.load)
    × (8 * q.frag + 20 + q.load < 65535)
overlapping_fragments-overlap_example =
    overlapping_fragments-overlap lab 40000 (finite (pos 100)) 80 3 1 (omega arith) (omega arith)

abbrev second : Packet
second = record {
  src = "10.0.0.1";
  dst = "10.0.0.2";
  ttl = none;
  more_fragments = true;
  frag = 4;
  sport = 40000;
  dport = 80;
  tcp_flags = none;
  chksum = none;
  load = 64;
}

abbrev reported : TelemetryEvent
reported = record {
  event_type = "RT_SCREEN_IP";
  five_tuple = flow_of second;
  timestamp = finite (pos 105);
  fields = [];
  raw = "";
}

abbrev correlator : Correlator
correlator = record { window_s = pos 30; skew_s = pos 5; require_ground_truth = false }

addresses : (is_ip_address lab.src_ip ≡ true) × (is_ip_address lab.dst_ip ≡ true)
unfolding is_ip_address split all
addresses = (refl, refl)

second_sent : In second (generate lab 40000 (finite (pos 100)) 80 (fragments 3) true).0
unfolding overlapping_fragments
second_sent = inr (inl refl)

in_time :
    within_window
      ((generate lab 40000 (finite (pos 100)) 80 (fragments 3) true).1).timestamp
      reported.timestamp
      correlator.window_s
      correlator.skew_s
    ≡ true
unfolding within_window overlapping_fragments ◌-ℤ◌ ◌+ℤ◌
in_time = refl

expected :
    reported.event_type
    ≡ ((generate lab 40000 (finite (pos 100)) 80 (fragments 3) true).1).expected_event_type
unfolding overlapping_fragments
expected = refl

correlate-generate_example :
    (w : TelemetryEvent) × (correlate correlator
        (generate lab 40000 (finite (pos 100)) 80 (fragments 3) true).1
        (reported ∷ [])
      ≡ some w)
correlate-generate_example =
    correlate-generate lab 40000 (finite (pos 100)) 80 (fragments 3) correlator second reported
      (reported ∷ []) addresses.0 addresses.1 second_sent (inl refl) expected refl in_time
