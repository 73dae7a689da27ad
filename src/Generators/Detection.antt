-- ===== src/Generators/Detection.antt =====
-- The correlator finds the telemetry of a stimulus: an event of the expected type, in the window, that
-- names the stimulus's own flow.
use srx.Prelude.{
  ◌≡◌, refl, ap, ◌∙◌, true, false, Option, none, some, String, List, all, All-In, In, Eq, eq_string,
  ==_refl,
}
use srx.Prelude.Int.{eq_ℤ}
use srx.Address.{is_ip_address}
use srx.Telemetry.{
  FiveTuple, Stimulus, TelemetryEvent, value_compatible, fields_compatible, five_tuple_matches,
  normalized, observation_matches, endpoints, within_window,
}
use srx.Correlator.{Correlator, is_candidate, key, correlate}
use srx.Correlator.Ranking.{IsWinner, correlate-IsWinner}

value_compatible_refl : {A : Type 0} ⦃e : Eq A⦄ (a : Option A) → value_compatible a a ≡ true
unfolding value_compatible
value_compatible_refl none = refl
value_compatible_refl (some a) = ==_refl a

pub five_tuple_matches_refl : (t : FiveTuple) → five_tuple_matches t t ≡ true
unfolding five_tuple_matches fields_compatible
five_tuple_matches_refl t =
    rw
      (
        value_compatible_refl (normalized t).src_ip,
        value_compatible_refl (normalized t).dst_ip,
        value_compatible_refl (normalized t).protocol,
        value_compatible_refl (normalized t).src_port,
        value_compatible_refl (normalized t).dst_port,
      )
      refl

-- A flow with two addresses is observed as itself.
pub observation_matches_refl :
    (t : FiveTuple) (src dst : String)
    → t.src_ip ≡ some src
    → t.dst_ip ≡ some dst
    → is_ip_address src ≡ true
    → is_ip_address dst ≡ true
    → observation_matches t t ≡ true
unfolding observation_matches endpoints all
observation_matches_refl t src dst s d p q = rw (s, d, p, q) (five_tuple_matches_refl _)

module _ (c : Correlator) (stimulus : Stimulus) (events : List TelemetryEvent)
    (ev : TelemetryEvent) where
  winner :
      (o : Option TelemetryEvent)
      → In ev events
      → is_candidate c stimulus ev ≡ true
      → IsWinner (key stimulus) (is_candidate c stimulus) events o
      → (w : TelemetryEvent) × (o ≡ some w)
  winner none m h no_match =
      let misses = All-In (λ x. is_candidate c stimulus x ≡ false) ev events no_match m in
      absurd (cc (misses, h))
  winner (some w) m h _ = (w, refl)

  -- An event of the expected type that is in the window and is observed as the stimulus's flow.
  pub observed_found :
      observation_matches stimulus.five_tuple ev.five_tuple ≡ true
      → In ev events
      → ev.event_type ≡ stimulus.expected_event_type
      → within_window stimulus.timestamp ev.timestamp c.window_s c.skew_s ≡ true
      → (w : TelemetryEvent) × (correlate c stimulus events ≡ some w)
  observed_found matches m kind inside =
      winner (correlate c stimulus events) m candidate (correlate-IsWinner c stimulus events)
    where
      candidate : is_candidate c stimulus ev ≡ true
      candidate =
          unfold is_candidate in
          rw (kind, ==_refl stimulus.expected_event_type, matches, inside) refl

  -- One that names that very flow, with two addresses.
  pub own_flow_found :
      (src dst : String)
      → (stimulus.five_tuple).src_ip ≡ some src
      → (stimulus.five_tuple).dst_ip ≡ some dst
      → is_ip_address src ≡ true
      → is_ip_address dst ≡ true
      → In ev events
      → ev.event_type ≡ stimulus.expected_event_type
      → ev.five_tuple ≡ stimulus.five_tuple
      → within_window stimulus.timestamp ev.timestamp c.window_s c.skew_s ≡ true
      → (w : TelemetryEvent) × (correlate c stimulus events ≡ some w)
  own_flow_found src dst s d p q m kind flow inside =
      observed_found
        (ap (observation_matches stimulus.five_tuple) flow
          ∙ observation_matches_refl stimulus.five_tuple src dst s d p q)
        m kind inside
