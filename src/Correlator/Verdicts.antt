-- ===== src/Correlator/Verdicts.antt =====
-- What a verdict says, and what the coverage matrix sums up.
use mathlib.Core.List.{append_assoc, append-nil}
use srx.Prelude.{
  ◌≡◌, refl, ap, sym, ◌∙◌, ◌↔◌, ◌≢◌, ◌⊎◌, inl, inr, Bool, true, false, not, Option, none, some,
  List, [], ◌∷◌, ◌++◌, map, keep, all, All, Bool-cases, arith,
}
use srx.Telemetry.{FiveTuple, Stimulus, TelemetryEvent}
use srx.Assertions.{field_complete}
use srx.Correlator.{
  Correlator, Verdict, CoverageMatrix, affirmed, inconclusive, passed, add, matrix_passed, failures,
  correlate, saw_ground_truth, verdict_of, evaluate, add_all, build_matrix,
}

-- Evidence that the verdict accepts: a compatible tuple in the capture, or, with no capture and not
-- in strict mode, the telemetry itself.
abbrev pub Supported : Correlator → Option Bool → Type 0
Supported c gt = (gt ≡ some true) ⊎ ((gt ≡ none) × (c.require_ground_truth ≡ false))

module _ (c : Correlator) (s : Stimulus) where
  passed-verdict_of :
      (m : Option TelemetryEvent) (gt : Option Bool)
      → passed (verdict_of c s m gt) ≡ true
      → (e : TelemetryEvent) × (m ≡ some e)
        × ((field_complete e s.expected_fields).0 ≡ true)
        × Supported c gt
  unfolding passed verdict_of
  passed-verdict_of none gt h = absurd (ground arith)
  passed-verdict_of (some e) none h = (e, refl, ground arith, inr (refl, ground arith))
  passed-verdict_of (some e) (some true) h = (e, refl, ground arith, inl refl)
  passed-verdict_of (some e) (some false) h = absurd (ground arith)

  verdict_of-passed :
      (e : TelemetryEvent) (gt : Option Bool)
      → (field_complete e s.expected_fields).0 ≡ true
      → Supported c gt
      → passed (verdict_of c s (some e) gt) ≡ true
  unfolding passed verdict_of
  verdict_of-passed e none h (inl q) = cc
  verdict_of-passed e none h (inr q) = ground arith
  verdict_of-passed e (some b) h (inl q) = ground arith
  verdict_of-passed e (some b) h (inr q) = cc

  detected-verdict_of :
      (m : Option TelemetryEvent) (gt : Option Bool)
      → (((verdict_of c s m gt).detected ≡ affirmed)
          × ((gt ≡ some true) ⊎ ((m ≢ none) × (gt ≡ none) × (c.require_ground_truth ≡ false))))
        ⊎ (((verdict_of c s m gt).detected ≡ inconclusive)
            × (gt ≢ some true)
            × ((m ≡ none) ⊎ (gt ≡ some false) ⊎ (c.require_ground_truth ≡ true)))
  unfolding verdict_of
  detected-verdict_of m (some true) = inl (refl, inl refl)
  detected-verdict_of m (some false) = inr (refl, (λ e. cc), inr (inl refl))
  detected-verdict_of none none = inr (refl, (λ e. cc), inl refl)
  detected-verdict_of (some e) none = elim (Bool-cases c.require_ground_truth) [
    | inl strict ↦ inr (rw strict refl, (λ q. cc), inr (inr strict))
    | inr lax ↦ inl (rw lax refl, inr ((λ q. cc), refl, lax))
  ]

module _ (c : Correlator) (s : Stimulus) (events : List TelemetryEvent)
    (gt : Option (List FiveTuple)) where
  -- A stimulus passes exactly if an event correlates with it, that event has a value in each
  -- expected field, and the evidence is a tuple in the capture or, with no capture and strict mode
  -- off, the telemetry.
  pub passed-evaluate_iff : (passed (evaluate c s events gt) ≡ true) ↔ (
      (e : TelemetryEvent) × (correlate c s events ≡ some e)
      × ((field_complete e s.expected_fields).0 ≡ true)
      × Supported c (saw_ground_truth s gt))
  unfolding evaluate
  passed-evaluate_iff = (
    passed-verdict_of c s (correlate c s events) (saw_ground_truth s gt),
    λ (e, m, f, g). rw m (verdict_of-passed c s e (saw_ground_truth s gt) f g),
  )

  -- A verdict never claims that nothing was detected: `detected` is YES with a tuple in the capture,
  -- or with a correlating event, no capture and strict mode off, and INCONCLUSIVE otherwise.
  pub detected-evaluate :
      (((evaluate c s events gt).detected ≡ affirmed)
        × ((saw_ground_truth s gt ≡ some true)
            ⊎ ((correlate c s events ≢ none)
                × (saw_ground_truth s gt ≡ none)
                × (c.require_ground_truth ≡ false))))
      ⊎ (((evaluate c s events gt).detected ≡ inconclusive)
          × (saw_ground_truth s gt ≢ some true)
          × ((correlate c s events ≡ none)
              ⊎ (saw_ground_truth s gt ≡ some false)
              ⊎ (c.require_ground_truth ≡ true)))
  unfolding evaluate
  detected-evaluate = detected-verdict_of c s (correlate c s events) (saw_ground_truth s gt)

module _ (c : Correlator) (events : List TelemetryEvent) (gt : Option (List FiveTuple)) where
  abbrev verdict : Stimulus → Verdict
  verdict s = evaluate c s events gt

  add_all-rows :
      (stimuli : List Stimulus) (m : CoverageMatrix)
      → (add_all c events gt stimuli m).rows ≡ m.rows ++ map verdict stimuli
  unfolding add_all add
  add_all-rows [] m = sym (append-nil m.rows)
  add_all-rows (s ∷ stimuli) m =
      add_all-rows stimuli (add m (verdict s))
      ∙ append_assoc m.rows (verdict s ∷ []) (map verdict stimuli)

  rows-build_matrix :
      (stimuli : List Stimulus) → (build_matrix c stimuli events gt).rows ≡ map verdict stimuli
  unfolding build_matrix
  rows-build_matrix stimuli = add_all-rows stimuli (record { rows = [] })

  all-verdicts :
      (stimuli : List Stimulus)
      → all passed (map verdict stimuli) ≡ true
      → All (λ s. passed (verdict s) ≡ true) stimuli
  unfolding all
  all-verdicts [] h = tt
  all-verdicts (s ∷ stimuli) h = ground (arith, all-verdicts stimuli)

  verdicts-all :
      (stimuli : List Stimulus)
      → All (λ s. passed (verdict s) ≡ true) stimuli
      → all passed (map verdict stimuli) ≡ true
  unfolding all
  verdicts-all [] h = refl
  verdicts-all (s ∷ stimuli) h = rw h.0 (verdicts-all stimuli h.1)

  no_failures :
      (rows : List Verdict) → all passed rows ≡ true → keep (λ r. not (passed r)) rows ≡ []
  unfolding all keep
  no_failures [] h = refl
  no_failures (r ∷ rows) h = ground (arith, no_failures rows)

  failures_none :
      (rows : List Verdict) → keep (λ r. not (passed r)) rows ≡ [] → all passed rows ≡ true
  unfolding all keep
  failures_none [] h = refl
  failures_none (r ∷ rows) h = ground (arith, failures_none rows)

  passed_rows :
      (m : CoverageMatrix) (r : Verdict) (rows : List Verdict)
      → m.rows ≡ r ∷ rows
      → matrix_passed m ≡ all passed m.rows
  unfolding matrix_passed
  passed_rows m r rows e = rw e (ground arith)

  -- The matrix has one row for each stimulus, in order, and passes exactly if there is a stimulus and
  -- every stimulus passes; with at least one row it passes exactly if it has no failures.
  pub matrix_passed-build_matrix :
      (s : Stimulus) (stimuli : List Stimulus)
      → let matrix = build_matrix c (s ∷ stimuli) events gt in
        (matrix.rows ≡ map (λ x. evaluate c x events gt) (s ∷ stimuli))
        × ((matrix_passed matrix ≡ true)
            ↔ All (λ x. passed (evaluate c x events gt) ≡ true) (s ∷ stimuli))
        × ((matrix_passed matrix ≡ true) ↔ (failures matrix ≡ []))
        × (matrix_passed (build_matrix c [] events gt) ≡ false)
  unfolding matrix_passed failures
  matrix_passed-build_matrix s stimuli = (
    rows-build_matrix (s ∷ stimuli),
    (
      λ h. all-verdicts (s ∷ stimuli) (ap (all passed) (sym rows) ∙ (sym whole ∙ h)),
      λ h. whole ∙ (ap (all passed) rows ∙ verdicts-all (s ∷ stimuli) h),
    ),
    (λ h. no_failures _ (sym whole ∙ h), λ h. whole ∙ failures_none _ h),
    rw (rows-build_matrix []) (ground arith),
  )
    where
      rows :
          (build_matrix c (s ∷ stimuli) events gt).rows
          ≡ map (λ x. evaluate c x events gt) (s ∷ stimuli)
      rows = rows-build_matrix (s ∷ stimuli)

      whole :
          matrix_passed (build_matrix c (s ∷ stimuli) events gt)
          ≡ all passed (build_matrix c (s ∷ stimuli) events gt).rows
      whole = passed_rows _ (verdict s) (map verdict stimuli) rows
