-- ===== src/Assertions.antt =====
-- validation/assertions.py: the Boolean predicates and the `assert_*` wrappers, which raise
-- AssertionError; the texts of the messages are not modelled.
pub mod Laws
mod Examples
use Prim.Native.String.{◌++◌ as append}
use srx.Prelude.{
  ℕ, zero, suc, ◌+◌, ◌≡◌, Bool, true, false, not, ◌&&◌, Option, none, some, String, List, [], ◌∷◌,
  Eq, eq_string, ◌==◌, keep, length, ltb, Result, ok, err, assertion_error, ◌>>=◌, ◌>>◌, guard,
  nat_eq, any, if◌then◌else◌,
}
use srx.Prelude.Int.{ℤ, pos, negsuc, int_eq}
use srx.Prelude.Text.{lower, decimal, is_infix}
use srx.Telemetry.{
  FiveTuple, TelemetryEvent, Value, null, text, number, flag, Fields, get_field,
  observation_matches,
}

tuple_filter : Option FiveTuple → TelemetryEvent → Bool
tuple_filter none ev = true
tuple_filter (some t) ev = observation_matches t ev.five_tuple

-- The two `continue` tests of the loop, as one.
pub wanted : String → Option FiveTuple → TelemetryEvent → Bool
unfolding tuple_filter
wanted event_type five_tuple ev = ev.event_type == event_type && tuple_filter five_tuple ev

unfoldable pub find_events : List TelemetryEvent → String → Option FiveTuple → List TelemetryEvent
find_events events event_type five_tuple = keep (wanted event_type five_tuple) events

pub event_present : List TelemetryEvent → String → Option FiveTuple → Bool
event_present events event_type five_tuple =
    ltb 0 (length (find_events events event_type five_tuple))

pub event_absent : List TelemetryEvent → String → Option FiveTuple → Bool
unfolding event_present
event_absent events event_type five_tuple = not (event_present events event_type five_tuple)

-- None and the empty text are missing; zero and False are values.
abbrev pub is_missing : Value → Bool
is_missing null = true
is_missing (text s) = s == ""
is_missing (number n) = false
is_missing (flag b) = false

pub missing_fields : TelemetryEvent → List String → List String
missing_fields event required = keep (λ f. is_missing (get_field event.fields f)) required

unfoldable pub field_complete : TelemetryEvent → List String → Bool × List String
unfolding missing_fields
field_complete event required =
    let missing = missing_fields event required in (nat_eq (length missing) 0, missing)

-- `str(value)`
render : Value → String
render null = "None"
render (text s) = s
render (number (pos n)) = decimal n
render (number (negsuc n)) = append "-" (decimal (suc n))
render (flag true) = "True"
render (flag false) = "False"

names_signature : TelemetryEvent → String → String → Bool
unfolding render
names_signature event want name = elim (get_field event.fields name) [
  | null ↦ false
  | text s ↦ lower s == want
  | number n ↦ lower (render (number n)) == want
  | flag b ↦ lower (render (flag b)) == want
]

abbrev pub signature_fields : List String
signature_fields = "signature" ∷ "attack-name" ∷ "attack_id" ∷ "threat-name" ∷ []

pub signature_id_match : TelemetryEvent → Value → List String → Bool
unfolding names_signature render
signature_id_match event expected field_names =
    any (names_signature event (lower (render expected))) field_names

abbrev as_int : Bool → ℤ
as_int true = pos 1
as_int false = pos 0

-- `val == expected` of values that are not both text: True is 1 and False is 0.
values_equal : Value → Value → Bool
values_equal (number a) (number b) = int_eq a b
values_equal (number a) (flag b) = int_eq a (as_int b)
values_equal (flag a) (number b) = int_eq (as_int a) b
values_equal (flag a) (flag b) = int_eq (as_int a) (as_int b)
values_equal (text a) (text b) = lower a == lower b
values_equal _ _ = false

pub field_value_match : TelemetryEvent → String → Value → Bool
unfolding values_equal
field_value_match event field_name expected =
    values_equal (get_field event.fields field_name) expected

pub field_contains : TelemetryEvent → String → String → Bool
field_contains event field_name needle = elim (get_field event.fields field_name) [
  | text s ↦ is_infix (lower needle) (lower s)
  | _ ↦ false
]

pub assert_event_present : List TelemetryEvent → String → Option FiveTuple → Result TelemetryEvent
assert_event_present events event_type five_tuple =
    elim (find_events events event_type five_tuple) [ [] ↦ err assertion_error | e ∷ rest ↦ ok e ]

pub assert_event_absent : List TelemetryEvent → String → Option FiveTuple → Result (Unit {0})
assert_event_absent events event_type five_tuple = elim (find_events events event_type five_tuple) [
  | [] ↦ ok tt
  | e ∷ rest ↦ err assertion_error
]

pub assert_fields_complete : TelemetryEvent → List String → Result (Unit {0})
assert_fields_complete event required = guard (field_complete event required).0 assertion_error

pub assert_signature_id : TelemetryEvent → Value → Result (Unit {0})
unfolding signature_id_match
assert_signature_id event expected =
    guard (signature_id_match event expected signature_fields) assertion_error

pub assert_field_value : TelemetryEvent → String → Value → Result (Unit {0})
unfolding field_value_match
assert_field_value event field_name expected =
    guard (field_value_match event field_name expected) assertion_error
