-- ===== src/Generators/Client/Stimuli.antt =====
-- The methods of `L7Client` of generators/l7_client.py that return a stimulus. What `_local_addr_for`
-- finds is an argument, and so is what the sockets do if the traffic is sent.
pub mod Flows
mod Examples
use srx.Prelude.{ℕ, Option, none, some, String, List, [], ◌∷◌, Result, ok, err, os_error, ◌>>=◌}
use Prim.Native.String.{◌++◌ as append}
use srx.Prelude.Int.{ℤ, pos}
use srx.Prelude.Text.{lower, upper}
use srx.Telemetry.{FiveTuple, Stimulus, Stamp, Fields, text}
use srx.Generators.Client.Http.{Connection, raw_http}
use srx.Generators.Client.Dns.{Exchange, raw_dns}

-- A local address and port; `(None, None)` is none.
abbrev pub Address : Type 0
Address = Option (String × ℕ)

abbrev pub eicar : String
eicar = "X5O!P%@AP[4\\PZX54(P^)7CC)7}$EICAR-STANDARD-ANTIVIRUS-TEST-FILE!$H+H*"

abbrev pub address_ip : Address → Option String
address_ip none = none
address_ip (some a) = some a.0

abbrev pub address_port : Address → Option ℤ
address_port none = none
address_port (some a) = some (pos a.1)

unfoldable pub flow : Address → String → String → ℕ → FiveTuple
flow a dst_ip protocol dst_port = record {
  src_ip = address_ip a;
  dst_ip = some dst_ip;
  protocol = some protocol;
  src_port = address_port a;
  dst_port = some (pos dst_port);
}

-- The address of the traffic if it is sent, else the one that was found before.
unfoldable pub ends : Address → Option (Result (String × ℕ)) → Result Address
ends local none = ok local
ends local (some (ok a)) = ok (some a)
ends local (some (err e)) = err e

unfoldable pub http_sent : Option Connection → Option String → Option (Result (String × ℕ))
unfolding raw_http
http_sent none expected = none
http_sent (some c) expected = some (raw_http c expected)

unfoldable pub dns_sent : Option Exchange → String → Option (Result (String × ℕ))
unfolding raw_dns
dns_sent none qname = none
dns_sent (some x) qname = some (raw_dns x qname)

-- The connection of a handshake: no address if the socket fails, be it after the connection, where only
-- a timeout is caught.
unfoldable pub raw_handshake : Address → Result (String × ℕ)
raw_handshake none = err os_error
raw_handshake (some a) = ok a

unfoldable pub handshake_sent : Option Address → Option (Result (String × ℕ))
unfolding raw_handshake
handshake_sent none = none
handshake_sent (some a) = some (raw_handshake a)

abbrev app_fields : List String
app_fields = "source-address" ∷ "destination-address" ∷ "application" ∷ []

module _ (dst_ip : String) (local : Address) (now : Stamp) where
  unfoldable pub http_get : ℕ → Option Connection → Result Stimulus
  unfolding ends http_sent flow
  http_get dst_port send = do
    a ← ends local (http_sent send none)
    ok (record {
      five_tuple = flow a dst_ip "TCP" dst_port;
      timestamp = now;
      expected_event_type = "APPTRACK_SESSION_CREATE";
      payload_class = "http-get";
      detection_target = "App-ID generic";
      expected_fields = app_fields;
      metadata = ("expected_app", text "HTTP") ∷ [];
    })

  unfoldable pub deliver_eicar_http : ℕ → Option Connection → Result Stimulus
  unfolding ends http_sent flow
  deliver_eicar_http dst_port send = do
    a ← ends local (http_sent send (some eicar))
    ok (record {
      five_tuple = flow a dst_ip "TCP" dst_port;
      timestamp = now;
      expected_event_type = "AV_VIRUS_DETECTED_MT";
      payload_class = "EICAR";
      detection_target = "Antivirus/UTM";
      expected_fields = "source-address" ∷ "destination-address" ∷ "virus-name" ∷ [];
      metadata = ("expected_av_name", text "EICAR-Test-File") ∷ [];
    })

  unfoldable pub deliver_gtube_http : ℕ → Option Connection → Result Stimulus
  unfolding ends http_sent flow
  deliver_gtube_http dst_port send = do
    a ← ends local (http_sent send none)
    ok (record {
      five_tuple = flow a dst_ip "TCP" dst_port;
      timestamp = now;
      expected_event_type = "RT_IDP_ATTACK_LOG_EVENT";
      payload_class = "GTUBE";
      detection_target = "IDP signature match";
      expected_fields = "source-address" ∷ "destination-address" ∷ "attack-name" ∷ [];
      metadata = ("signature", text "GTUBE") ∷ [];
    })

  unfoldable pub dns_query : String → String → Option Exchange → Result Stimulus
  unfolding ends dns_sent flow
  dns_query dns_server qname send = do
    a ← ends local (dns_sent send qname)
    ok (record {
      five_tuple = flow a dns_server "UDP" 53;
      timestamp = now;
      expected_event_type = "APPTRACK_SESSION_CREATE";
      payload_class = "dns-query";
      detection_target = "App-ID generic";
      expected_fields = app_fields;
      metadata = ("expected_app", text "DNS") ∷ [];
    })

  unfoldable pub tcp_handshake : ℕ → String → Option Address → Result Stimulus
  unfolding ends handshake_sent flow
  tcp_handshake dst_port app send = do
    a ← ends local (handshake_sent send)
    ok (record {
      five_tuple = flow a dst_ip "TCP" dst_port;
      timestamp = now;
      expected_event_type = "APPTRACK_SESSION_CREATE";
      payload_class = append (lower app) "-handshake";
      detection_target = "App-ID generic";
      expected_fields = app_fields;
      metadata = ("expected_app", text (upper app)) ∷ [];
    })
