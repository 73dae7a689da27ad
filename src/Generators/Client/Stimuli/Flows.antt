-- ===== src/Generators/Client/Stimuli/Flows.antt =====
-- The stimulus of traffic that was sent names the flow that the socket used.
use srx.Prelude.{
  ℕ, ◌≡◌, refl, sym, ap, ◌∙◌, true, Option, none, some, String, List, [], In, Result, ok, err,
  ok_inj, >>=-eq-ok, >>-eq-ok, guard, runtime_error, ◌>>=◌,
}
use srx.Address.{is_ip_address}
use srx.Telemetry.{FiveTuple, Stimulus, TelemetryEvent, Stamp, within_window}
use srx.Correlator.{Correlator, correlate}
use srx.Generators.Detection.{own_flow_found}
use srx.Generators.Client.Http.{
  Connection, refused, connected, raw_http, receive, response_limit, is_conclusive,
}
use srx.Generators.Client.Dns.{Exchange, fails, answers, answered, raw_dns, query_packet, is_answer}
use srx.Generators.Client.Stimuli.{
  Address, address_ip, eicar, flow, ends, http_sent, dns_sent, handshake_sent, raw_handshake,
  http_get, deliver_eicar_http, deliver_gtube_http, dns_query, tcp_handshake,
}

-- A call whose traffic leaves from a socket.
pub data Sending : Type 0 where
  http eicar_http gtube_http : ℕ → Connection → Sending
  dns : String → String → Exchange → Sending
  handshake : ℕ → String → Address → Sending

abbrev pub connection_address : Connection → Address
connection_address refused = none
connection_address (connected ip p parts) = some (ip, p)

abbrev pub exchange_address : Exchange → Address
exchange_address fails = none
exchange_address (answers ip p response) = some (ip, p)

-- The local address of the socket.
abbrev pub socket_of : Sending → Address
socket_of (http port c) = connection_address c
socket_of (eicar_http port c) = connection_address c
socket_of (gtube_http port c) = connection_address c
socket_of (dns server qname x) = exchange_address x
socket_of (handshake port app a) = a

module _ (dst_ip : String) (local : Address) (now : Stamp) where
  abbrev pub send : Sending → Result Stimulus
  send (http port c) = http_get dst_ip local now port (some c)
  send (eicar_http port c) = deliver_eicar_http dst_ip local now port (some c)
  send (gtube_http port c) = deliver_gtube_http dst_ip local now port (some c)
  send (dns server qname x) = dns_query dst_ip local now server qname (some x)
  send (handshake port app a) = tcp_handshake dst_ip local now port app (some a)

  -- Where the traffic goes.
  abbrev pub target_of : Sending → String
  target_of (dns server qname x) = server
  target_of (http port c) = dst_ip
  target_of (eicar_http port c) = dst_ip
  target_of (gtube_http port c) = dst_ip
  target_of (handshake port app a) = dst_ip

  abbrev pub flow_of : Sending → FiveTuple
  flow_of (http port c) = flow (socket_of (http port c)) dst_ip "TCP" port
  flow_of (eicar_http port c) = flow (socket_of (eicar_http port c)) dst_ip "TCP" port
  flow_of (gtube_http port c) = flow (socket_of (gtube_http port c)) dst_ip "TCP" port
  flow_of (dns server qname x) = flow (socket_of (dns server qname x)) server "UDP" 53
  flow_of (handshake port app a) = flow a dst_ip "TCP" port

raw_http-ok :
    (c : Connection) (expected : Option String) (x : String × ℕ)
    → raw_http c expected ≡ ok x
    → connection_address c ≡ some x
unfolding raw_http
raw_http-ok refused expected x h = cc
raw_http-ok (connected ip p parts) expected x h =
    let (r, _, h1) = >>=-eq-ok (receive response_limit [] parts) _ h in
    let (_, h2) = >>-eq-ok (guard (is_conclusive expected r.0 r.1) runtime_error) _ h1 in
    ap some (ok_inj h2)

raw_dns-ok :
    (e : Exchange) (qname : String) (x : String × ℕ)
    → raw_dns e qname ≡ ok x
    → exchange_address e ≡ some x
unfolding raw_dns answered
raw_dns-ok fails qname x h = let (_, _, h1) = >>=-eq-ok (query_packet qname) _ h in cc h1
raw_dns-ok (answers ip p response) qname x h =
    let (_, _, h1) = >>=-eq-ok (query_packet qname) _ h in
    let (_, h2) = >>-eq-ok (guard (is_answer response) runtime_error) _ h1 in ap some (ok_inj h2)

raw_handshake-ok : (a : Address) (x : String × ℕ) → raw_handshake a ≡ ok x → a ≡ some x
unfolding raw_handshake
raw_handshake-ok none x h = cc
raw_handshake-ok (some a) x h = ap some (ok_inj h)

module _ (local : Address) (now : Stamp) (make : Address → Stimulus) (tuple : Address → FiveTuple)
    (st : Stimulus) where
  -- The stimulus of a call that returns: the address is known, and it stands in the tuple.
  abbrev Describes : Address → Type 0
  Describes a = (x : String × ℕ) × (a ≡ some x) × (st.five_tuple ≡ tuple a) × (st.timestamp ≡ now)

  ends-Describes :
      (raw : Result (String × ℕ)) (a : Address)
      → ((b : Address) → ((make b).five_tuple ≡ tuple b) × ((make b).timestamp ≡ now))
      → ((x : String × ℕ) → raw ≡ ok x → a ≡ some x)
      → (ends local (some raw) >>= λ b. ok (make b)) ≡ ok st
      → Describes a
  unfolding ends
  ends-Describes (err e) a made from h = absurd (cc h)
  ends-Describes (ok x) a made from h =
      let known = from x refl in
      let same : make (some x) ≡ st = ok_inj h in
      (
        x,
        known,
        sym (ap (λ (s : Stimulus). s.five_tuple) same) ∙ ((made (some x)).0 ∙ ap tuple (sym known)),
        sym (ap (λ (s : Stimulus). s.timestamp) same) ∙ (made (some x)).1,
      )

module _ (dst_ip : String) (local : Address) (now : Stamp) where
  -- The address that a stimulus of a call names is the one of its socket.
  abbrev IsTrue : Sending → Stimulus → Type 0
  IsTrue k st =
      (x : String × ℕ) × (socket_of k ≡ some x)
      × (st.five_tuple ≡ flow_of dst_ip local now k)
      × (st.timestamp ≡ now)

  send-IsTrue : (k : Sending) (st : Stimulus) → send dst_ip local now k ≡ ok st → IsTrue k st
  unfolding http_get deliver_eicar_http deliver_gtube_http dns_query tcp_handshake http_sent
      dns_sent handshake_sent
  send-IsTrue (http port c) st h =
      ends-Describes local now _ (λ a. flow a dst_ip "TCP" port) st (raw_http c none)
        (connection_address c) (λ b. (refl, refl)) (raw_http-ok c none) h
  send-IsTrue (eicar_http port c) st h =
      ends-Describes local now _ (λ a. flow a dst_ip "TCP" port) st (raw_http c (some eicar))
        (connection_address c) (λ b. (refl, refl)) (raw_http-ok c (some eicar)) h
  send-IsTrue (gtube_http port c) st h =
      ends-Describes local now _ (λ a. flow a dst_ip "TCP" port) st (raw_http c none)
        (connection_address c) (λ b. (refl, refl)) (raw_http-ok c none) h
  send-IsTrue (dns server qname x) st h =
      ends-Describes local now _ (λ a. flow a server "UDP" 53) st (raw_dns x qname)
        (exchange_address x) (λ b. (refl, refl)) (raw_dns-ok x qname) h
  send-IsTrue (handshake port app a) st h =
      ends-Describes local now _ (λ a. flow a dst_ip "TCP" port) st (raw_handshake a) a
        (λ b. (refl, refl)) (raw_handshake-ok a) h

  ends_of :
      (k : Sending)
      → ((flow_of dst_ip local now k).src_ip ≡ address_ip (socket_of k))
        × ((flow_of dst_ip local now k).dst_ip ≡ some (target_of dst_ip local now k))
  unfolding flow
  ends_of (http port c) = (refl, refl)
  ends_of (eicar_http port c) = (refl, refl)
  ends_of (gtube_http port c) = (refl, refl)
  ends_of (dns server qname x) = (refl, refl)
  ends_of (handshake port app a) = (refl, refl)

  -- If a call sends its traffic from a socket with this address and returns a stimulus, and that address
  -- and the target are IP addresses, an event of the expected type, in the
  -- window, that names the flow of the socket makes the correlator find a match for the stimulus.
  pub correlate-send :
      (k : Sending) (st : Stimulus) (c : Correlator) (ev : TelemetryEvent)
      (events : List TelemetryEvent) (ip : String) (port : ℕ)
      → send dst_ip local now k ≡ ok st
      → socket_of k ≡ some (ip, port)
      → is_ip_address ip ≡ true
      → is_ip_address (target_of dst_ip local now k) ≡ true
      → In ev events
      → ev.event_type ≡ st.expected_event_type
      → ev.five_tuple ≡ flow_of dst_ip local now k
      → within_window now ev.timestamp c.window_s c.skew_s ≡ true
      → (w : TelemetryEvent) × (correlate c st events ≡ some w)
  correlate-send k st c ev events ip port h from s d m kind names inside =
      let (x, _, described, at) = send-IsTrue k st h in
      own_flow_found c st events ev ip (target_of dst_ip local now k)
        (ap (λ (t : FiveTuple). t.src_ip) described ∙ ((ends_of k).0 ∙ ap address_ip from))
        (ap (λ (t : FiveTuple). t.dst_ip) described ∙ (ends_of k).1) s d m kind
        (names ∙ sym described)
        (ap (λ t. within_window t ev.timestamp c.window_s c.skew_s) at ∙ inside)
