-- ===== src/Generators/Client/Stimuli/Examples.antt =====
-- The statement about the client at a query that the firewall classifies.
use srx.Prelude.{◌≡◌, refl, inl, some, none, all, true, false, [], ◌∷◌, ok}
use srx.Prelude.Int.{pos, ◌+ℤ◌, ◌-ℤ◌}
use srx.Prelude.Text.{split}
use srx.Address.{is_ip_address}
use srx.Telemetry.{Stimulus, TelemetryEvent, finite, text, within_window}
use srx.Correlator.{Correlator, correlate}
use srx.Generators.Client.Dns.{answers}
use srx.Generators.Client.Stimuli.{dns_query}
use srx.Generators.Client.Stimuli.Flows.{Sending, dns, send, flow_of, correlate-send}

abbrev query : Sending
query =
    dns "10.0.0.53" "probe.lab"
      (answers "10.0.0.1" 40000 (0xab ∷ 0xcd ∷ 129 ∷ 128 ∷ 0 ∷ 1 ∷ 0 ∷ 0 ∷ 0 ∷ 0 ∷ 0 ∷ 0 ∷ []))

abbrev described : Stimulus
described = record {
  five_tuple = flow_of "10.0.0.2" none (finite (pos 100)) query;
  timestamp = finite (pos 100);
  expected_event_type = "APPTRACK_SESSION_CREATE";
  payload_class = "dns-query";
  detection_target = "App-ID generic";
  expected_fields = "source-address" ∷ "destination-address" ∷ "application" ∷ [];
  metadata = ("expected_app", text "DNS") ∷ [];
}

abbrev classified : TelemetryEvent
classified = record {
  event_type = "APPTRACK_SESSION_CREATE";
  five_tuple = flow_of "10.0.0.2" none (finite (pos 100)) query;
  timestamp = finite (pos 101);
  fields = [];
  raw = "";
}

abbrev correlator : Correlator
correlator = record { window_s = pos 30; skew_s = pos 5; require_ground_truth = false }

queried : send "10.0.0.2" none (finite (pos 100)) query ≡ ok described
unfolding dns_query split
queried = refl

addresses : (is_ip_address "10.0.0.1" ≡ true) × (is_ip_address "10.0.0.53" ≡ true)
unfolding is_ip_address split all
addresses = (refl, refl)

in_time : within_window (finite (pos 100)) (finite (pos 101)) (pos 30) (pos 5) ≡ true
unfolding within_window ◌-ℤ◌ ◌+ℤ◌
in_time = refl

correlate-send_example :
    (w : TelemetryEvent) × (correlate correlator described (classified ∷ []) ≡ some w)
correlate-send_example =
    correlate-send "10.0.0.2" none (finite (pos 100)) query described correlator classified
      (classified ∷ []) "10.0.0.1" 40000 queried refl addresses.0 addresses.1 (inl refl) refl refl
      in_time
