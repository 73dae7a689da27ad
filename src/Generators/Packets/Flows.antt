-- ===== src/Generators/Packets/Flows.antt =====
-- Every packet of a generator is of the flow that its stimulus names, so that the telemetry of any of
-- them is found.
use srx.Prelude.{
  ℕ, zero, suc, ◌+◌, ◌≡◌, refl, ap, ◌∙◌, sym, Bool, true, some, List, All, All-In, In,
}
use srx.Prelude.Int.{pos}
use srx.Address.{is_ip_address}
use srx.Telemetry.{FiveTuple, Stimulus, TelemetryEvent, Stamp, within_window}
use srx.Correlator.{Correlator, correlate}
use srx.Generators.Detection.{own_flow_found}
use srx.Generators.Packets.{
  Packet, PacketGenerator, flow, fragments_from, tcp_connection, tcp_to_denied_port,
  malformed_flags, bad_checksum, tiny_ttl, overlapping_fragments,
}

-- The generators, with their own arguments.
pub data Kind : Type 0 where
  connection denied malformed checksum : Kind
  ttl fragments : ℕ → Kind

-- What a packet shows to the firewall.
abbrev pub flow_of : Packet → FiveTuple
flow_of p = record {
  src_ip = some p.src;
  dst_ip = some p.dst;
  protocol = some "TCP";
  src_port = some (pos p.sport);
  dst_port = some (pos p.dport);
}

module _ (g : PacketGenerator) (sport : ℕ) (now : Stamp) (port : ℕ) where
  -- The call of the generator of a kind.
  abbrev pub generate : Kind → Bool → List Packet × Stimulus
  generate connection send = tcp_connection g sport now port send
  generate denied send = tcp_to_denied_port g sport now port send
  generate malformed send = malformed_flags g sport now port send
  generate checksum send = bad_checksum g sport now port send
  generate (ttl n) send = tiny_ttl g sport now port n send
  generate (fragments n) send = overlapping_fragments g sport now port n send

  abbrev OfFlow : FiveTuple → Packet → Type 0
  OfFlow t p = flow_of p ≡ t

  fragments-OfFlow :
      (count i rounds : ℕ)
      → All (OfFlow (flow g sport now port)) (fragments_from g sport now port count i rounds)
  unfolding fragments_from flow
  fragments-OfFlow count i zero = tt
  fragments-OfFlow count i (suc rounds) = (refl, fragments-OfFlow count (i + 1) rounds)

  generate-OfFlow : (k : Kind) → All (OfFlow (flow g sport now port)) (generate k true).0
  unfolding tcp_connection tcp_to_denied_port malformed_flags bad_checksum tiny_ttl flow
  generate-OfFlow connection = (refl, tt)
  generate-OfFlow denied = (refl, tt)
  generate-OfFlow malformed = (refl, tt)
  generate-OfFlow checksum = (refl, tt)
  generate-OfFlow (ttl n) = (refl, tt)
  generate-OfFlow (fragments n) = unfold overlapping_fragments in fragments-OfFlow n 0 n

  five_tuple-generate : (k : Kind) → ((generate k true).1).five_tuple ≡ flow g sport now port
  unfolding tcp_connection tcp_to_denied_port malformed_flags bad_checksum tiny_ttl
      overlapping_fragments
  five_tuple-generate connection = refl
  five_tuple-generate denied = refl
  five_tuple-generate malformed = refl
  five_tuple-generate checksum = refl
  five_tuple-generate (ttl n) = refl
  five_tuple-generate (fragments n) = refl

  -- If the generator's two addresses are IP addresses, an event that has the type which a generator
  -- expects, lies in the window of its stimulus and names the flow of any packet that it sent makes the
  -- correlator find a match for the stimulus.
  pub correlate-generate :
      (k : Kind) (c : Correlator) (p : Packet) (ev : TelemetryEvent) (events : List TelemetryEvent)
      → is_ip_address g.src_ip ≡ true
      → is_ip_address g.dst_ip ≡ true
      → In p (generate k true).0
      → In ev events
      → ev.event_type ≡ ((generate k true).1).expected_event_type
      → ev.five_tuple ≡ flow_of p
      → within_window ((generate k true).1).timestamp ev.timestamp c.window_s c.skew_s ≡ true
      → (w : TelemetryEvent) × (correlate c (generate k true).1 events ≡ some w)
  correlate-generate k c p ev events s d sent m kind names inside =
      own_flow_found c (generate k true).1 events ev g.src_ip g.dst_ip
        (ap (λ (t : FiveTuple). t.src_ip) (five_tuple-generate k) ∙ source)
        (ap (λ (t : FiveTuple). t.dst_ip) (five_tuple-generate k) ∙ destination) s d m kind
        (names
          ∙ (All-In (OfFlow (flow g sport now port)) p (generate k true).0 (generate-OfFlow k) sent
              ∙ sym (five_tuple-generate k)))
        inside
    where
      source : (flow g sport now port).src_ip ≡ some g.src_ip
      source = unfold flow in refl

      destination : (flow g sport now port).dst_ip ≡ some g.dst_ip
      destination = unfold flow in refl
