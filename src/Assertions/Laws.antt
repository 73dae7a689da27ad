-- ===== src/Assertions/Laws.antt =====
-- What the assertion helpers decide.
use srx.Prelude.{
  ◌≡◌, refl, ◌↔◌, Bool, true, false, Option, String, List, [], ◌∷◌, All, In, In-keep_iff, keep,
  Result, Bool-cases, length, ltb, nat_eq, ap, guard-eq-ok, inl, inr, ok, err, assertion_error,
  arith,
}
use srx.Telemetry.{FiveTuple, TelemetryEvent, get_field}
use srx.Assertions.{
  wanted, find_events, event_present, event_absent, is_missing, missing_fields, field_complete,
  assert_event_present, assert_event_absent, assert_fields_complete,
}

-- An event is found exactly if it is in the list, has the type and matches the tuple.
pub find_events_iff :
    (e : TelemetryEvent) (events : List TelemetryEvent) (event_type : String) (t : Option FiveTuple)
    → In e (find_events events event_type t) ↔ (In e events × (wanted event_type t e ≡ true))
unfolding find_events
find_events_iff e events event_type t = In-keep_iff (wanted event_type t) e events

-- The two predicates are about the same set: one holds exactly if an event is wanted, the other
-- exactly if none is.
pub event_present_iff :
    (events : List TelemetryEvent) (event_type : String) (t : Option FiveTuple)
    → (event_present events event_type t ≡ true)
      ↔ ((e : TelemetryEvent) × In e events × (wanted event_type t e ≡ true))
unfolding event_present
event_present_iff events event_type t = (
  λ h. found (find_events events event_type t) refl h,
  λ (e, m, w).
      present e (find_events events event_type t) refl
        ((find_events_iff e events event_type t).1 (m, w)),
)
  where
    found :
        (l : List TelemetryEvent)
        → find_events events event_type t ≡ l
        → ltb 0 (length (find_events events event_type t)) ≡ true
        → (e : TelemetryEvent) × In e events × (wanted event_type t e ≡ true)
    found [] q h = absurd (ground (arith, ap length q))
    found (e ∷ l) q h =
        let r = (find_events_iff e events event_type t).0 (rw q (inl refl)) in (e, r.0, r.1)

    present :
        (e : TelemetryEvent) (l : List TelemetryEvent)
        → find_events events event_type t ≡ l
        → In e (find_events events event_type t)
        → ltb 0 (length (find_events events event_type t)) ≡ true
    present e [] q m = absurd (rw q at m)
    present e (x ∷ l) q m = rw q (ground arith)

pub event_absent-eq-not_present :
    (events : List TelemetryEvent) (event_type : String) (t : Option FiveTuple)
    → (event_absent events event_type t ≡ true) ↔ (event_present events event_type t ≡ false)
unfolding event_absent
event_absent-eq-not_present events event_type t = (λ h. ground arith, λ h. ground arith)

-- What the two wrappers do where `found` is the list of the wanted events.
abbrev pub Asserted :
    List TelemetryEvent → Bool → Result TelemetryEvent → Result (Unit {0}) → Type 0
Asserted [] present a b = (present ≡ false) × (a ≡ err assertion_error) × (b ≡ ok tt)
Asserted (e ∷ rest) present a b = (present ≡ true) × (a ≡ ok e) × (b ≡ err assertion_error)

-- The presence wrapper returns the first wanted event and raises exactly if the predicate is
-- false; the absence wrapper raises exactly if the predicate is true.
pub assert_event_cases :
    (events : List TelemetryEvent) (event_type : String) (t : Option FiveTuple)
    → Asserted
        (find_events events event_type t)
        (event_present events event_type t)
        (assert_event_present events event_type t)
        (assert_event_absent events event_type t)
unfolding event_present assert_event_present assert_event_absent
assert_event_cases events event_type t = go (find_events events event_type t)
  where
    go :
        (l : List TelemetryEvent)
        → Asserted l
            (ltb 0 (length l))
            (elim l [ [] ↦ err assertion_error | e ∷ rest ↦ ok e ])
            (elim l [ [] ↦ ok tt | e ∷ rest ↦ err assertion_error ])
    go [] = (ground arith, refl, refl)
    go (e ∷ rest) = (ground arith, refl, refl)

nil_of_length : {A : Type 0} (l : List A) → nat_eq (length l) 0 ≡ true → l ≡ []
nil_of_length [] h = refl
nil_of_length (x ∷ l) h = absurd (ground arith)

module _ (event : TelemetryEvent) where
  abbrev Carries : String → Type 0
  Carries f = is_missing (get_field event.fields f) ≡ false

  none_missing :
      (required : List String) → missing_fields event required ≡ [] → All Carries required
  unfolding missing_fields keep
  none_missing [] h = tt
  none_missing (f ∷ fs) h = elim (Bool-cases (is_missing (get_field event.fields f))) [
    | inl gone ↦ absurd (cc (rw gone at h))
    | inr there ↦ (there, none_missing fs (rw there at h))
  ]

  none_missing_conv :
      (required : List String) → All Carries required → missing_fields event required ≡ []
  unfolding missing_fields keep
  none_missing_conv [] h = refl
  none_missing_conv (f ∷ fs) h = rw h.0 (none_missing_conv fs h.1)

  -- The check passes exactly if every required field has a value, the wrapper raises exactly if it
  -- does not pass, and the list names exactly the required fields without a value.
  pub field_complete_lem :
      (required : List String)
      → (((field_complete event required).0 ≡ true)
          ↔ All (λ f. is_missing (get_field event.fields f) ≡ false) required)
        × ((assert_fields_complete event required ≡ ok tt)
            ↔ ((field_complete event required).0 ≡ true))
        × ((f : String)
            → In f (field_complete event required).1
              ↔ (In f required × (is_missing (get_field event.fields f) ≡ true)))
  unfolding field_complete assert_fields_complete
  field_complete_lem required = (
    (
      λ h. none_missing required (nil_of_length _ h),
      λ h. rw (none_missing_conv required h) (ground arith),
    ),
    (λ h. guard-eq-ok _ _ h, λ h. rw h refl),
    λ f. In-keep_iff (λ g. is_missing (get_field event.fields g)) f required,
  )
