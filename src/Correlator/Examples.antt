-- ===== src/Correlator/Examples.antt =====
-- The statements about the correlator at a probe and two events.
use srx.Prelude.{◌≡◌, ◌↔◌, refl, true, false, none, some, [], ◌∷◌, map, keep, all, All}
use srx.Prelude.Int.{pos, gap, ◌-ℤ◌, ◌+ℤ◌}
use srx.Telemetry.{
  TelemetryEvent, observation_matches, endpoints, five_tuple_matches, fields_compatible, normalized,
  value_compatible, within_window,
}
use srx.Address.{is_ip_address}
use srx.Prelude.Text.{upper, split}
use srx.Telemetry.Examples.{probe, seen, seen_at, seen_tuple}
use srx.Assertions.{field_complete}
use srx.Correlator.{
  Correlator, passed, matrix_passed, failures, is_candidate, key, candidates, sort_by, insert_by,
  distance, correlate, saw_ground_truth, evaluate, build_matrix,
}
use srx.Correlator.Ranking.{IsWinner, correlate-IsWinner}
use srx.Correlator.Verdicts.{Supported, passed-evaluate_iff, matrix_passed-build_matrix}

abbrev pub lab : Correlator
lab = record { window_s = pos 10; skew_s = pos 2; require_ground_truth = false }

correlate_test : correlate lab probe seen ≡ some (seen_at (pos 103))
unfolding correlate candidates is_candidate keep sort_by insert_by distance observation_matches
    endpoints all five_tuple_matches fields_compatible normalized value_compatible within_window
    is_ip_address upper split ◌-ℤ◌ ◌+ℤ◌ gap
correlate_test = refl

correlate-IsWinner_example :
    IsWinner (key probe) (is_candidate lab probe) seen (correlate lab probe seen)
correlate-IsWinner_example = correlate-IsWinner lab probe seen

passed-evaluate_iff_example : (passed (evaluate lab probe seen (some (seen_tuple ∷ []))) ≡ true) ↔ (
    (e : TelemetryEvent) × (correlate lab probe seen ≡ some e)
    × ((field_complete e probe.expected_fields).0 ≡ true)
    × Supported lab (saw_ground_truth probe (some (seen_tuple ∷ []))))
passed-evaluate_iff_example = passed-evaluate_iff lab probe seen (some (seen_tuple ∷ []))

matrix_passed-build_matrix_example :
    let matrix = build_matrix lab (probe ∷ probe ∷ []) seen none in
    (matrix.rows ≡ map (λ x. evaluate lab x seen none) (probe ∷ probe ∷ []))
    × ((matrix_passed matrix ≡ true)
        ↔ All (λ x. passed (evaluate lab x seen none) ≡ true) (probe ∷ probe ∷ []))
    × ((matrix_passed matrix ≡ true) ↔ (failures matrix ≡ []))
    × (matrix_passed (build_matrix lab [] seen none) ≡ false)
matrix_passed-build_matrix_example = matrix_passed-build_matrix lab seen none probe (probe ∷ [])
