-- ===== src/Generators/Floods/Examples.antt =====
-- The statement about open flows at a UDP flood that is only described.
use srx.Prelude.{
  ◌≡◌, refl, some, none, all, contains, true, false, Option, String, [], ◌∷◌, Result, ok, err,
  value_error,
}
use srx.Prelude.Int.{pos, ◌+ℤ◌, ◌-ℤ◌}
use srx.Prelude.Text.{lower, split}
use srx.Address.{is_ip_address}
use srx.Telemetry.{Stimulus, TelemetryEvent, finite, text, number, within_window}
use srx.Correlator.{Correlator}
use srx.Limits.{default_limits, interval_us}
use srx.Limits
use srx.Workload.{Split}
use srx.Generators.Floods.{flood}
use srx.Generators.Floods.Wildcards.{floods, drive, observed_as}

abbrev nowhere : String → Option String
nowhere name = none

abbrev unparsed : String → Result Split
unparsed url = err value_error

abbrev described : Stimulus
described = record {
  five_tuple = record {
    src_ip = some "10.0.0.1";
    dst_ip = some "10.0.0.2";
    protocol = some "UDP";
    src_port = none;
    dst_port = some (pos 53);
  };
  timestamp = finite (pos 100);
  expected_event_type = "RT_SCREEN_UDP";
  payload_class = "hping3-udp-flood";
  detection_target = "Flood (SYN/ICMP/UDP)";
  expected_fields = "source-address" ∷ "destination-address" ∷ "attack-name" ∷ [];
  metadata =
      ("flood_type", text "udp")
      ∷ ("count", number (pos 2000))
      ∷ ("rate_pps", number (pos 500))
      ∷ ("execution_status", text "not_run")
      ∷ ("detection_status", text "not_evaluated")
      ∷ [];
}

abbrev screened : TelemetryEvent
screened = record {
  event_type = "RT_SCREEN_UDP";
  five_tuple = observed_as described.five_tuple "10.0.0.1" (pos 1044) (pos 53);
  timestamp = finite (pos 103);
  fields = [];
  raw = "";
}

abbrev correlator : Correlator
correlator = record { window_s = pos 30; skew_s = pos 5; require_ground_truth = false }

describes :
    drive nowhere unparsed default_limits
      (finite (pos 100))
      none
      "10.0.0.1"
      "10.0.0.2"
      (floods "UDP" 53 2000 500)
    ≡ ok described
unfolding flood Limits.flood contains lower interval_us
describes = refl

addresses : (is_ip_address "10.0.0.1" ≡ true) × (is_ip_address "10.0.0.2" ≡ true)
unfolding is_ip_address split all
addresses = (refl, refl)

in_time : within_window (finite (pos 100)) (finite (pos 103)) (pos 30) (pos 5) ≡ true
unfolding within_window ◌-ℤ◌ ◌+ℤ◌
in_time = refl
