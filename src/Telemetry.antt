-- ===== src/Telemetry.antt =====
-- validation/correlator.py, the data models and the matching primitives. A timestamp is a whole
-- number of ticks of a fixed unit, an infinity or not a number; the rounding of floats is not modelled.
-- Field values are what the collectors store: None, text, whole numbers and flags.
pub mod Matching
pub mod Examples
use srx.Prelude.{
  Bool, true, false, ◌&&◌, Option, none, some, String, List, [], ◌∷◌, Eq, eq_string, ◌==◌, all,
  lookup, if◌then◌else◌,
}
use srx.Prelude.Int.{ℤ, ◌+ℤ◌, ◌-ℤ◌, leb_ℤ, ltb_ℤ, eq_ℤ}
use srx.Prelude.Text.{upper}
use srx.Address.{is_ip_address}

pub record FiveTuple : Type 0 where
  pub src_ip : Option String
  pub dst_ip : Option String
  pub protocol : Option String
  pub src_port : Option ℤ
  pub dst_port : Option ℤ

pub data Value : Type 0 where
  null : Value
  text : String → Value
  number : ℤ → Value
  flag : Bool → Value

pub data Stamp : Type 0 where
  finite : ℤ → Stamp
  infinity minus_infinity nan : Stamp

-- The value of a timestamp that passes `math.isfinite`.
abbrev pub ticks : Stamp → Option ℤ
ticks (finite t) = some t
ticks infinity = none
ticks minus_infinity = none
ticks nan = none

-- `a < b` of floats.
abbrev pub ltb_stamp : Stamp → Stamp → Bool
ltb_stamp (finite a) (finite b) = ltb_ℤ a b
ltb_stamp (finite a) infinity = true
ltb_stamp (finite a) minus_infinity = false
ltb_stamp (finite a) nan = false
ltb_stamp infinity b = false
ltb_stamp minus_infinity (finite b) = true
ltb_stamp minus_infinity infinity = true
ltb_stamp minus_infinity minus_infinity = false
ltb_stamp minus_infinity nan = false
ltb_stamp nan b = false

abbrev pub Fields : Type 0
Fields = List (String × Value)

pub record Stimulus : Type 0 where
  pub five_tuple : FiveTuple
  pub timestamp : Stamp
  pub expected_event_type : String
  pub payload_class : String
  pub detection_target : String
  pub expected_fields : List String
  pub metadata : Fields

pub record TelemetryEvent : Type 0 where
  pub event_type : String
  pub five_tuple : FiveTuple
  pub timestamp : Stamp
  pub fields : Fields
  pub raw : String

-- `fields.get(name)`: a missing key reads as None.
unfoldable pub get_field : Fields → String → Value
get_field fields name = elim (lookup name fields) [ none ↦ null | some v ↦ v ]

upper_opt : Option String → Option String
upper_opt none = none
upper_opt (some p) = some (upper p)

unfoldable pub normalized : FiveTuple → FiveTuple
unfolding upper_opt
normalized t = record t { protocol = upper_opt t.protocol }

unfoldable pub value_compatible {ℓ} : {A : Type ℓ} ⦃e : Eq A⦄ → Option A → Option A → Bool
value_compatible none b = true
value_compatible (some a) none = true
value_compatible (some a) (some b) = a == b

-- The five comparisons, of tuples that are normalized.
unfoldable pub fields_compatible : FiveTuple → FiveTuple → Bool
fields_compatible a b =
    value_compatible a.src_ip b.src_ip
    && (value_compatible a.dst_ip b.dst_ip
        && (value_compatible a.protocol b.protocol
            && (value_compatible a.src_port b.src_port && value_compatible a.dst_port b.dst_port)))

unfoldable pub five_tuple_matches : FiveTuple → FiveTuple → Bool
five_tuple_matches a b = fields_compatible (normalized a) (normalized b)

-- `[ip for ip in (observed.src_ip, observed.dst_ip) if ip is not None]`
unfoldable pub endpoints : Option String → Option String → List String
endpoints none none = []
endpoints none (some d) = d ∷ []
endpoints (some s) none = s ∷ []
endpoints (some s) (some d) = s ∷ d ∷ []

unfoldable pub observation_matches : FiveTuple → FiveTuple → Bool
observation_matches stimulus observed = elim (endpoints observed.src_ip observed.dst_ip) [
  | [] ↦ false
  | a ∷ rest ↦ if all is_ip_address (a ∷ rest) then five_tuple_matches stimulus observed else false
]

inside : Option ℤ → Option ℤ → ℤ → ℤ → Bool
inside none e window skew = false
inside (some s) none window skew = false
inside (some s) (some e) window skew = leb_ℤ (s -ℤ skew) e && leb_ℤ e (s +ℤ window +ℤ skew)

unfoldable pub within_window : Stamp → Stamp → ℤ → ℤ → Bool
unfolding inside
within_window s e window skew = inside (ticks s) (ticks e) window skew
