-- ===== src/Generators/Floods/Wildcards.antt =====
-- A stimulus that leaves its ports or its source open is found by the telemetry of any flow that fills
-- them in.
use srx.Prelude.{
  ℕ, ◌≡◌, refl, ap, ◌∙◌, subst, true, Option, none, some, String, List, all, In, is_some, lookup,
  Eq, eq_string, ==_refl, Result, ok, value_error, ok_inj, >>=-eq-ok, >>-eq-ok, guard, ◌>>=◌,
}
use srx.Prelude.Int.{ℤ, pos, eq_ℤ}
use srx.Prelude.Text.{lower}
use srx.Address.{is_ip_address}
use srx.Telemetry.{
  FiveTuple, Stimulus, TelemetryEvent, Stamp, Fields, value_compatible, fields_compatible,
  five_tuple_matches, normalized, observation_matches, endpoints, within_window,
}
use srx.Correlator.{Correlator, correlate}
use srx.Limits
use srx.Limits.{WorkloadLimits, whole, scan_flags, build_nmap_cmd, build_hping3_flood_cmd}
use srx.Workload.{Split, http_port}
use srx.Generators.Detection.{observed_found}
use srx.Generators.Floods.{flow, tcp_scan, flood, session_volume, throughput, server_or}

-- What the telemetry shows where the stimulus leaves a value open.
abbrev pub fill {ℓ} : {A : Type ℓ} → Option A → A → A
fill none seen = seen
fill (some a) seen = a

-- A flow as a firewall observes it.
unfoldable pub observed_as : FiveTuple → String → ℤ → ℤ → FiveTuple
observed_as t src sport dport = record t {
  src_ip = some (fill t.src_ip src);
  src_port = some (fill t.src_port sport);
  dst_port = some (fill t.dst_port dport);
}

value_compatible-fill :
    {A : Type 0} ⦃e : Eq A⦄ (o : Option A) (seen : A)
    → value_compatible o (some (fill o seen)) ≡ true
unfolding value_compatible
value_compatible-fill none seen = refl
value_compatible-fill (some a) seen = ==_refl a

value_compatible_refl : {A : Type 0} ⦃e : Eq A⦄ (a : Option A) → value_compatible a a ≡ true
unfolding value_compatible
value_compatible_refl none = refl
value_compatible_refl (some a) = ==_refl a

observed_as-matches :
    (t : FiveTuple) (src dst : String) (sport dport : ℤ)
    → t.dst_ip ≡ some dst
    → is_ip_address (fill t.src_ip src) ≡ true
    → is_ip_address dst ≡ true
    → observation_matches t (observed_as t src sport dport) ≡ true
unfolding observation_matches endpoints all observed_as five_tuple_matches fields_compatible
    normalized
observed_as-matches t src dst sport dport d p q =
    rw
      (
        d,
        p,
        q,
        value_compatible-fill t.src_ip src,
        value_compatible-fill t.src_port sport,
        value_compatible-fill t.dst_port dport,
        value_compatible_refl (some dst),
        value_compatible_refl (normalized t).protocol,
      )
      refl

-- The calls that load or scan a target, with their own arguments.
pub data Load : Type 0 where
  scans : String → ℕ → Load
  floods : String → ℕ → ℕ → ℕ → Load
  volume : String → ℕ → ℕ → ℕ → Load
  stream : Option String → ℕ → ℕ → ℕ → Load

module _ (which : String → Option String) (urlsplit : String → Result Split) (l : WorkloadLimits)
    (now : Stamp) (run : Option (List String → Result Fields)) (src_ip dst_ip : String) where
  abbrev pub drive : Load → Result Stimulus
  drive (scans kind max_ports) = tcp_scan which urlsplit l now run src_ip dst_ip kind max_ports
  drive (floods kind port count rate) =
      flood which urlsplit l now run src_ip dst_ip kind port count rate
  drive (volume url connections threads duration) =
      session_volume which urlsplit l now run dst_ip url connections threads duration
  drive (stream server duration parallel port) =
      throughput which urlsplit l now run dst_ip server duration parallel port

  abbrev pub target : Load → String
  target (scans kind max_ports) = dst_ip
  target (floods kind port count rate) = dst_ip
  target (volume url connections threads duration) = dst_ip
  target (stream server duration parallel port) = server_or which urlsplit l now run server dst_ip

  abbrev IsAimed : String → Stimulus → Type 0
  IsAimed dst st = ((st.five_tuple).dst_ip ≡ some dst) × (st.timestamp ≡ now)

  -- Every stimulus that a last step can make is of this kind.
  made :
      (dst : String) (metadata : Result Fields) (make : Fields → Stimulus) (st : Stimulus)
      → ((m : Fields) → IsAimed dst (make m))
      → (metadata >>= λ m. ok (make m)) ≡ ok st
      → IsAimed dst st
  made dst metadata make st each h =
      let (m, _, e) = >>=-eq-ok metadata _ h in subst (IsAimed dst) (ok_inj e) (each m)

  drive-IsAimed : (k : Load) (st : Stimulus) → drive k ≡ ok st → IsAimed (target k) st
  unfolding tcp_scan flood session_volume throughput flow
  drive-IsAimed (scans kind max_ports) st h =
      let (_, h1) = >>-eq-ok (Limits.scan l (whole (pos max_ports))) _ h in
      let (_, h2) = >>-eq-ok (guard (is_some (lookup (lower kind) scan_flags)) value_error) _ h1 in
      made dst_ip _ _ st (λ m. (refl, refl)) h2
  drive-IsAimed (floods kind port count rate) st h =
      let (_, h1) =
        >>-eq-ok
          (Limits.flood l (lower kind) (whole (pos port)) (whole (pos count)) (whole (pos rate))) _
          h in
      made dst_ip _ _ st (λ m. (refl, refl)) h1
  drive-IsAimed (volume url connections threads duration) st h =
      let (_, h1) =
        >>-eq-ok
          (Limits.wrk l (whole (pos connections)) (whole (pos threads)) (whole (pos duration))) _
          h in
      let (n, _, h2) = >>=-eq-ok (http_port urlsplit url) _ h1 in
      made dst_ip _ _ st (λ m. (refl, refl)) h2
  drive-IsAimed (stream server duration parallel port) st h =
      let (_, h1) =
        >>-eq-ok (Limits.iperf l (whole (pos duration)) (whole (pos parallel)) (whole (pos port))) _
          h in
      made (target (stream server duration parallel port)) _ _ st (λ m. (refl, refl)) h1

  -- If a call returns a stimulus, an event of the expected type, in the window, whose flow is the one of
  -- the stimulus with any source address and any ports where it leaves them open makes the correlator
  -- find a match, if the source and the target are IP addresses.
  pub correlate-drive :
      (k : Load) (st : Stimulus) (c : Correlator) (ev : TelemetryEvent)
      (events : List TelemetryEvent) (src : String) (sport dport : ℤ)
      → drive k ≡ ok st
      → is_ip_address (fill (st.five_tuple).src_ip src) ≡ true
      → is_ip_address (target k) ≡ true
      → In ev events
      → ev.event_type ≡ st.expected_event_type
      → ev.five_tuple ≡ observed_as st.five_tuple src sport dport
      → within_window now ev.timestamp c.window_s c.skew_s ≡ true
      → (w : TelemetryEvent) × (correlate c st events ≡ some w)
  correlate-drive k st c ev events src sport dport h s d m kind names inside =
      let (aimed, at) = drive-IsAimed k st h in
      observed_found c st events ev
        (ap (observation_matches st.five_tuple) names
          ∙ observed_as-matches st.five_tuple src (target k) sport dport aimed s d)
        m kind (ap (λ t. within_window t ev.timestamp c.window_s c.skew_s) at ∙ inside)
