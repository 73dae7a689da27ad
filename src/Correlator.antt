-- ===== src/Correlator.antt =====
-- validation/correlator.py: verdicts, the coverage matrix and the correlator. The text table of
-- the report is not modelled.
pub mod Ranking
pub mod Verdicts
mod Examples
use Prim.Native.String.{◌++◌ as append}
use srx.Prelude.{
  ℕ, ◌≡◌, Bool, true, false, not, ◌&&◌, ◌||◌, Option, none, some, String, List, [], ◌∷◌, ◌++◌, map,
  keep, all, any, leb, eq_string, ◌==◌, Result, ok, err, value_error, if◌then◌else◌,
}
use srx.Prelude.Int.{ℤ, pos, ltb_ℤ, gap}
use srx.Telemetry.{
  FiveTuple, Stimulus, TelemetryEvent, Stamp, ticks, observation_matches, within_window,
}
use srx.Assertions.{field_complete}

pub data Detection : Type 0 where
  affirmed denied inconclusive : Detection

abbrev pub is_affirmed : Detection → Bool
is_affirmed affirmed = true
is_affirmed denied = false
is_affirmed inconclusive = false

pub record Verdict : Type 0 where
  pub detection_target : String
  pub event_type : String
  pub detected : Detection
  pub logged : Detection
  pub fields_complete : Detection
  pub matched_event : Option TelemetryEvent
  pub missing_fields : List String
  pub note : String

-- `Verdict.passed`
unfoldable pub passed : Verdict → Bool
passed v = is_affirmed v.detected && (is_affirmed v.logged && is_affirmed v.fields_complete)

pub record CoverageMatrix : Type 0 where
  pub rows : List Verdict

pub add : CoverageMatrix → Verdict → CoverageMatrix
add m v = record { rows = m.rows ++ v ∷ [] }

abbrev is_nonempty : List Verdict → Bool
is_nonempty [] = false
is_nonempty (r ∷ rows) = true

unfoldable pub matrix_passed : CoverageMatrix → Bool
matrix_passed m = all passed m.rows && is_nonempty m.rows

pub failures : CoverageMatrix → List Verdict
failures m = keep (λ r. not (passed r)) m.rows

pub record Correlator : Type 0 where
  pub window_s : ℤ
  pub skew_s : ℤ
  pub require_ground_truth : Bool

checked : Option ℤ → Option ℤ → Bool → Result Correlator
checked (some w) (some s) strict =
    if ltb_ℤ w (pos 0) || ltb_ℤ s (pos 0)
    then err value_error
    else ok (record { window_s = w; skew_s = s; require_ground_truth = strict })
checked (some w) none strict = err value_error
checked none s strict = err value_error

-- `Correlator.__init__`: both spans finite and non-negative.
pub new : Stamp → Stamp → Bool → Result Correlator
unfolding checked
new window skew strict = checked (ticks window) (ticks skew) strict

-- The three tests of `candidates`.
unfoldable pub is_candidate : Correlator → Stimulus → TelemetryEvent → Bool
is_candidate c stimulus ev =
    ev.event_type == stimulus.expected_event_type
    && (observation_matches stimulus.five_tuple ev.five_tuple
        && within_window stimulus.timestamp ev.timestamp c.window_s c.skew_s)

-- The sort key; candidates have finite timestamps.
span : Option ℤ → Option ℤ → ℕ
span (some a) (some b) = gap a b
span (some a) none = 0
span none b = 0

unfoldable pub distance : Stamp → Stamp → ℕ
unfolding span
distance a b = span (ticks a) (ticks b)

abbrev pub key : Stimulus → TelemetryEvent → ℕ
key stimulus ev = distance ev.timestamp stimulus.timestamp

-- A stable sort by a key, as `list.sort(key=...)`.
module _ {ℓ} {A : Type ℓ} (rank : A → ℕ) where
  unfoldable pub insert_by : A → List A → List A
  insert_by x [] = x ∷ []
  insert_by x (y ∷ ys) =
      let later = y ∷ insert_by x ys in if leb (rank x) (rank y) then x ∷ y ∷ ys else later

  unfoldable pub sort_by : List A → List A
  unfolding insert_by
  sort_by [] = []
  sort_by (x ∷ xs) = insert_by x (sort_by xs)

unfoldable pub candidates : Correlator → Stimulus → List TelemetryEvent → List TelemetryEvent
candidates c stimulus events = sort_by (key stimulus) (keep (is_candidate c stimulus) events)

abbrev pub first {ℓ} : {A : Type ℓ} → List A → Option A
first [] = none
first (x ∷ xs) = some x

unfoldable pub correlate : Correlator → Stimulus → List TelemetryEvent → Option TelemetryEvent
correlate c stimulus events = first (candidates c stimulus events)

unfoldable pub saw_ground_truth : Stimulus → Option (List FiveTuple) → Option Bool
saw_ground_truth stimulus none = none
saw_ground_truth stimulus (some tuples) =
    some (any (observation_matches stimulus.five_tuple) tuples)

-- The two assignments to `logged`.
pub logged_flag : Option Bool → Option TelemetryEvent → Detection
logged_flag gt (some ev) = affirmed
logged_flag none none = denied
logged_flag (some true) none = denied
logged_flag (some false) none = inconclusive

pub detected_flag : Option Bool → Option TelemetryEvent → Bool → Detection
detected_flag (some true) matched strict = affirmed
detected_flag (some false) matched strict = inconclusive
detected_flag none (some ev) false = affirmed
detected_flag none (some ev) true = inconclusive
detected_flag none none strict = inconclusive

pub completeness : Option TelemetryEvent → List String → Detection × List String
completeness none expected = (inconclusive, [])
completeness (some ev) expected =
    let (complete, missing) = field_complete ev expected in
    (if complete then affirmed else denied, missing)

abbrev supported : String
supported =
    append "Independent capture contains a compatible tuple; this supports "
      "traffic observation, not proof of a security action."

abbrev logging_gap : String
logging_gap =
    append " Expected telemetry not found: possible logging gap; "
      "verify capture scope and policy."

abbrev not_captured : String
not_captured = append "No compatible tuple in independent egress capture: INCONCLUSIVE. " (
    append "Absence does not establish non-arrival or lack of security action "
      "(blocking, capture loss, timing, NAT or path differences are possible).")

abbrev inferred : String
inferred =
    append "Observation inferred from telemetry only; "
      "no independent evidence or proof of security action."

abbrev unavailable : String
unavailable = "Independent evidence unavailable; observation is INCONCLUSIVE."

pub note_of : Option Bool → Option TelemetryEvent → Bool → String
note_of (some true) (some ev) strict = supported
note_of (some true) none strict = append supported logging_gap
note_of (some false) matched strict = not_captured
note_of none (some ev) false = inferred
note_of none (some ev) true = unavailable
note_of none none strict = unavailable

unfoldable pub verdict_of : Correlator → Stimulus → Option TelemetryEvent → Option Bool → Verdict
unfolding logged_flag detected_flag completeness note_of
verdict_of c stimulus matched gt =
    let (complete, missing) = completeness matched stimulus.expected_fields in
    record {
      detection_target =
          if stimulus.detection_target == ""
          then stimulus.payload_class
          else stimulus.detection_target;
      event_type = stimulus.expected_event_type;
      detected = detected_flag gt matched c.require_ground_truth;
      logged = logged_flag gt matched;
      fields_complete = complete;
      matched_event = matched;
      missing_fields = missing;
      note = note_of gt matched c.require_ground_truth;
    }

unfoldable pub evaluate :
    Correlator → Stimulus → List TelemetryEvent → Option (List FiveTuple) → Verdict
unfolding verdict_of
evaluate c stimulus events ground_truth =
    verdict_of c stimulus (correlate c stimulus events) (saw_ground_truth stimulus ground_truth)

-- The loop of `build_matrix`.
pub add_all :
    Correlator
    → List TelemetryEvent
    → Option (List FiveTuple)
    → List Stimulus
    → CoverageMatrix
    → CoverageMatrix
add_all c events gt [] m = m
add_all c events gt (stim ∷ stimuli) m =
    add_all c events gt stimuli (add m (evaluate c stim events gt))

unfoldable pub build_matrix :
    Correlator → List Stimulus → List TelemetryEvent → Option (List FiveTuple) → CoverageMatrix
unfolding add_all
build_matrix c stimuli events ground_truth =
    add_all c events ground_truth stimuli (record { rows = [] })
