-- ===== src/Telemetry/Examples.antt =====
-- A stimulus of the lab and events that were collected for it, with the statements about matching at them.
use srx.Prelude.{none, some, List, [], ◌∷◌}
use srx.Prelude.Int.{ℤ, pos}
use srx.Telemetry.{FiveTuple, Stimulus, TelemetryEvent, finite, text}

abbrev pub sent_tuple : FiveTuple
sent_tuple = record {
  src_ip = some "10.0.0.1";
  dst_ip = some "10.0.0.2";
  protocol = some "tcp";
  src_port = none;
  dst_port = some (pos 80);
}

abbrev pub seen_tuple : FiveTuple
seen_tuple = record {
  src_ip = some "10.0.0.1";
  dst_ip = some "10.0.0.2";
  protocol = some "TCP";
  src_port = some (pos 40000);
  dst_port = some (pos 80);
}

abbrev pub no_tuple : FiveTuple
no_tuple = record {
  src_ip = none;
  dst_ip = none;
  protocol = some "TCP";
  src_port = none;
  dst_port = some (pos 80);
}

abbrev pub probe : Stimulus
probe = record {
  five_tuple = sent_tuple;
  timestamp = finite (pos 100);
  expected_event_type = "IDS_SIGNATURE";
  payload_class = "eicar";
  detection_target = "antivirus";
  expected_fields = "signature_id" ∷ [];
  metadata = [];
}

abbrev pub seen_at : ℤ → TelemetryEvent
seen_at t = record {
  event_type = "IDS_SIGNATURE";
  five_tuple = seen_tuple;
  timestamp = finite t;
  fields = ("signature_id", text "1042") ∷ [];
  raw = "";
}

abbrev pub seen : List TelemetryEvent
seen = seen_at (pos 109) ∷ seen_at (pos 103) ∷ []
