-- ===== src/Generators/Floods.antt =====
-- `tcp_scan` and `flood` of generators/scan_gen.py, `session_volume`, `throughput` and the builders of
-- generators/load_gen.py. The clock, the search for a binary, `urlsplit` and what an execution of a
-- command adds to the metadata are arguments.
pub mod Wildcards
mod Examples
use srx.Prelude.{
  ℕ, Bool, true, false, Option, none, some, String, List, [], ◌∷◌, is_some, lookup, eq_string, ◌==◌,
  Result, ok, err, value_error, ◌>>=◌, ◌>>◌, guard, if◌then◌else◌,
}
use Prim.Native.String.{◌++◌ as append}
use srx.Prelude.Int.{ℤ, pos}
use srx.Prelude.Text.{lower, decimal}
use srx.Telemetry.{FiveTuple, Stimulus, Stamp, Fields, Value, text, number}
use srx.Limits
use srx.Limits.{
  WorkloadLimits, whole, scan_flags, build_nmap_cmd, build_hping3_flood_cmd, require_binary,
}
use srx.Workload.{Split, http_port}

unfoldable pub insert : String → Value → Fields → Fields
insert k v [] = (k, v) ∷ []
insert k v ((j, w) ∷ m) = if j == k then (k, v) ∷ m else (j, w) ∷ insert k v m

-- `metadata.update(more)`
unfoldable pub update : Fields → Fields → Fields
unfolding insert
update metadata [] = metadata
update metadata ((k, v) ∷ more) = update (insert k v metadata) more

abbrev statuses : Fields
statuses = ("execution_status", text "not_run") ∷ ("detection_status", text "not_evaluated") ∷ []

-- The metadata of a call that only describes, or also runs a command.
unfoldable pub executed :
    Option (List String → Result Fields) → Result (List String) → Fields → Result Fields
unfolding update
executed none command metadata = ok metadata
executed (some execute) command metadata = do
  cmd ← command
  more ← execute cmd
  ok (update metadata more)

unfoldable pub flow : Option String → String → String → Option ℤ → FiveTuple
flow src_ip dst_ip protocol dst_port = record {
  src_ip = src_ip;
  dst_ip = some dst_ip;
  protocol = some protocol;
  src_port = none;
  dst_port = dst_port;
}

-- `{"syn": "TCP", "icmp": "ICMP", "udp": "UDP"}[flood_type]`; other types are refused before.
unfoldable pub protocol_of : String → String
protocol_of kind = if kind == "syn" then "TCP" else if kind == "icmp" then "ICMP" else "UDP"

abbrev anomaly_fields : List String
anomaly_fields = "source-address" ∷ "destination-address" ∷ "attack-name" ∷ []

module _ (which : String → Option String) (urlsplit : String → Result Split) (l : WorkloadLimits)
    (now : Stamp) (run : Option (List String → Result Fields)) where
  unfoldable pub tcp_scan : String → String → String → ℕ → Result Stimulus
  unfolding executed flow
  tcp_scan src_ip dst_ip scan_type max_ports = do
    Limits.scan l (whole (pos max_ports))
    let kind = lower scan_type
    guard (is_some (lookup kind scan_flags)) value_error
    metadata ←
        executed run (build_nmap_cmd which l dst_ip kind max_ports)
          (("scan_type", text kind) ∷ ("max_ports", number (pos max_ports)) ∷ statuses)
    ok (record {
      five_tuple = flow (some src_ip) dst_ip "TCP" none;
      timestamp = now;
      expected_event_type = "RT_SCREEN_TCP";
      payload_class = append "nmap-" (append kind "-scan");
      detection_target = "TCP scan";
      expected_fields = anomaly_fields;
      metadata = metadata;
    })

  unfoldable pub flood : String → String → String → ℕ → ℕ → ℕ → Result Stimulus
  unfolding executed flow protocol_of
  flood src_ip dst_ip flood_type dst_port count rate_pps = do
    let kind = lower flood_type
    Limits.flood l kind (whole (pos dst_port)) (whole (pos count)) (whole (pos rate_pps))
    metadata ← executed run (build_hping3_flood_cmd which l dst_ip kind dst_port count rate_pps) (
        ("flood_type", text kind)
        ∷ ("count", number (pos count))
        ∷ ("rate_pps", number (pos rate_pps))
        ∷ statuses)
    ok (record {
      five_tuple =
          flow (some src_ip) dst_ip (protocol_of kind)
            (if protocol_of kind == "ICMP" then none else some (pos dst_port));
      timestamp = now;
      expected_event_type =
          if protocol_of kind == "TCP"
          then "RT_SCREEN_TCP"
          else append "RT_SCREEN_" (protocol_of kind);
      payload_class = append "hping3-" (append kind "-flood");
      detection_target = "Flood (SYN/ICMP/UDP)";
      expected_fields = anomaly_fields;
      metadata = metadata;
    })

  unfoldable pub build_wrk_cmd : String → ℕ → ℕ → ℕ → Result (List String)
  build_wrk_cmd url connections threads duration_s = do
    Limits.wrk l (whole (pos connections)) (whole (pos threads)) (whole (pos duration_s))
    port ← http_port urlsplit url
    binary ← require_binary which "wrk"
    ok (
        binary
        ∷ "-c"
        ∷ decimal connections
        ∷ "-t"
        ∷ decimal threads
        ∷ "-d"
        ∷ append (decimal duration_s) "s"
        ∷ "--latency"
        ∷ url
        ∷ [])

  unfoldable pub session_volume : String → String → ℕ → ℕ → ℕ → Result Stimulus
  unfolding executed flow build_wrk_cmd
  session_volume dst_ip url connections threads duration_s = do
    Limits.wrk l (whole (pos connections)) (whole (pos threads)) (whole (pos duration_s))
    port ← http_port urlsplit url
    metadata ← executed run (build_wrk_cmd url connections threads duration_s) (
        ("connections", number (pos connections))
        ∷ ("threads", number (pos threads))
        ∷ ("duration_s", number (pos duration_s))
        ∷ ("url", text url)
        ∷ statuses)
    ok (record {
      five_tuple = flow none dst_ip "TCP" (some (pos port));
      timestamp = now;
      expected_event_type = "RT_FLOW_SESSION_CREATE";
      payload_class = "session-volume";
      detection_target = "Session volume";
      expected_fields = "source-address" ∷ "destination-address" ∷ [];
      metadata = metadata;
    })

  unfoldable pub build_iperf3_cmd : String → ℕ → ℕ → ℕ → Result (List String)
  build_iperf3_cmd server duration_s parallel port = do
    Limits.iperf l (whole (pos duration_s)) (whole (pos parallel)) (whole (pos port))
    binary ← require_binary which "iperf3"
    ok (
        binary
        ∷ "-c"
        ∷ server
        ∷ "-t"
        ∷ decimal duration_s
        ∷ "-P"
        ∷ decimal parallel
        ∷ "-p"
        ∷ decimal port
        ∷ "--json"
        ∷ [])

  -- `server or self.dst_ip`
  unfoldable pub server_or : Option String → String → String
  server_or none dst_ip = dst_ip
  server_or (some server) dst_ip = if server == "" then dst_ip else server

  unfoldable pub throughput : String → Option String → ℕ → ℕ → ℕ → Result Stimulus
  unfolding executed flow build_iperf3_cmd server_or
  throughput dst_ip server duration_s parallel port = do
    Limits.iperf l (whole (pos duration_s)) (whole (pos parallel)) (whole (pos port))
    metadata ←
        executed run (build_iperf3_cmd (server_or server dst_ip) duration_s parallel port)
          (("duration_s", number (pos duration_s)) ∷ ("parallel", number (pos parallel)) ∷ statuses)
    ok (record {
      five_tuple = flow none (server_or server dst_ip) "TCP" (some (pos port));
      timestamp = now;
      expected_event_type = "RT_FLOW_SESSION_CLOSE";
      payload_class = "throughput-stream";
      detection_target = "Throughput";
      expected_fields = "source-address" ∷ "destination-address" ∷ "bytes-from-client" ∷ [];
      metadata = metadata;
    })
