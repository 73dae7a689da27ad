-- ===== src/Dashboard/Request/Limits.antt =====
-- The numbers that the dashboard admits are within the default `WorkloadLimits` of the generators.
use srx.Prelude.{
  ℕ, ◌*◌, ◌≤◌, ◌≡◌, refl, ap, sym, ◌∙◌, inl, inr, true, Option, none, some, String, List, [], ◌∷◌,
  leb, contains, lookup, eq_string, ok, value_error, guard, guard-eq-ok, >>-eq-ok, subst, arith,
}
use srx.Prelude.Int.{pos}
use srx.Limits.{flood_types, whole, default_limits, wrk, flood, interval_us, bounded_int}
use srx.Limits.Pacing.{flood_iff}
use srx.Dashboard.Run.{Param, Params, int, str}
use srx.Dashboard.Catalog.{ParamSpec, WorkloadSpec, workloads, limit_of, number_param, text_param}
use srx.Dashboard.Fields.{Members, object}
use srx.Dashboard.Request.{Accepted, validate_request, cross_check, number}
use srx.Dashboard.Request.Bounds.{Within, Fits, validate_request-Checked, validate_request-Passed}

-- The first parameter and the others.
abbrev Head : String → ParamSpec → List ParamSpec → Params → Type 0
Head workload p specs clean =
    (v : Param) × (rest : Params) × (clean ≡ (p.name, v) ∷ rest)
    × Within p.kind workload p v
    × Fits workload specs rest

Fits-cons :
    (workload : String) (p : ParamSpec) (specs : List ParamSpec) (clean : Params)
    → Fits workload (p ∷ specs) clean
    → Head workload p specs clean
Fits-cons workload p specs [] h = absurd h
Fits-cons workload p specs ((k, v) ∷ rest) h = (v, rest, ap (λ x. (x, v) ∷ rest) h.0, h.1, h.2)

Fits-nil : (workload : String) (clean : Params) → Fits workload [] clean → clean ≡ []
Fits-nil workload [] h = refl
Fits-nil workload (c ∷ clean) h = absurd h

module _ (workload name : String) (specs : List ParamSpec) (clean : Params) where
  -- The first parameter is a number within its ceiling.
  Fits-number :
      (default : ℕ)
      → Fits workload (number_param name default ∷ specs) clean
      → (n : ℕ) × (rest : Params) × (clean ≡ (name, int n) ∷ rest)
        × (1 ≤ n)
        × (n ≤ limit_of workload name)
        × Fits workload specs rest
  Fits-number default h = split (Fits-cons workload (number_param name default) specs clean h)
    where
      split :
          Head workload (number_param name default) specs clean
          → (n : ℕ) × (rest : Params) × (clean ≡ (name, int n) ∷ rest)
            × (1 ≤ n)
            × (n ≤ limit_of workload name)
            × Fits workload specs rest
      split (int n, rest, e, w, f) = (n, rest, e, w.0, w.1, f)
      split (str s, rest, e, w, f) = absurd w

  Fits-text :
      (default choice : String) (choices : List String)
      → Fits workload (text_param name default (choice ∷ choices) ∷ specs) clean
      → (s : String) × (rest : Params) × (clean ≡ (name, str s) ∷ rest)
        × (contains (choice ∷ choices) s ≡ true)
        × Fits workload specs rest
  Fits-text default choice choices h =
      split (Fits-cons workload (text_param name default (choice ∷ choices)) specs clean h)
    where
      split :
          Head workload (text_param name default (choice ∷ choices)) specs clean
          → (s : String) × (rest : Params) × (clean ≡ (name, str s) ∷ rest)
            × (contains (choice ∷ choices) s ≡ true)
            × Fits workload specs rest
      split (int n, rest, e, w, f) = absurd w
      split (str s, rest, e, w, f) = elim w.chosen [
        | inl q ↦ absurd (cc q)
        | inr c ↦ (s, rest, e, c, f)
      ]

abbrev rate_specs : List ParamSpec
rate_specs = number_param "rate" 500 ∷ []

abbrev count_specs : List ParamSpec
count_specs = number_param "count" 2000 ∷ rate_specs

abbrev port_specs : List ParamSpec
port_specs = number_param "port" 80 ∷ count_specs

abbrev flood_specs : List ParamSpec
flood_specs = text_param "type" "syn" ("syn" ∷ "icmp" ∷ "udp" ∷ []) ∷ port_specs

flood_admits :
    (kind : String) (port count rate : ℕ)
    → contains flood_types kind ≡ true
    → 1 ≤ port
    → port ≤ 65535
    → 1 ≤ count
    → count ≤ 10000
    → 1 ≤ rate
    → rate ≤ 1000
    → leb (count * interval_us rate) 300000000 ≡ true
    → flood default_limits kind (whole (pos port)) (whole (pos count)) (whole (pos rate)) ≡ ok tt
flood_admits kind port count rate k p1 p2 n1 n2 r1 r2 paced =
    (flood_iff default_limits kind port count rate).1
      (k, ground arith, p2, n1, n2, r1, r2, ground arith)

unfoldable pub flood_params : String → ℕ → ℕ → ℕ → Params
flood_params kind port count rate =
    ("type", str kind) ∷ ("port", int port) ∷ ("count", int count) ∷ ("rate", int rate) ∷ []

Fits-flood :
    (clean : Params)
    → Fits "flood" flood_specs clean
    → cross_check "flood" clean ≡ ok tt
    → (kind : String) × (port : ℕ) × (count : ℕ) × (rate : ℕ) × (clean
        ≡ flood_params kind port count rate)
      × (flood default_limits kind (whole (pos port)) (whole (pos count)) (whole (pos rate))
          ≡ ok tt)
unfolding flood_params limit_of cross_check number lookup
Fits-flood clean h cross =
    let (kind, c1, e1, k, f1) =
      Fits-text "flood" "type" port_specs clean "syn" "syn" ("icmp" ∷ "udp" ∷ []) h in
    let (port, c2, e2, p1, p2, f2) = Fits-number "flood" "port" count_specs c1 80 f1 in
    let (count, c3, e3, n1, n2, f3) = Fits-number "flood" "count" rate_specs c2 2000 f2 in
    let (rate, c4, e4, r1, r2, f4) = Fits-number "flood" "rate" [] c3 500 f3 in
    let e5 = Fits-nil "flood" c4 f4 in
    let same : clean ≡ flood_params kind port count rate = rw (e1, e2, e3, e4, e5) refl in
    let paced = guard-eq-ok _ _ (subst (λ c. cross_check "flood" c ≡ ok tt) same cross) in
    (kind, port, count, rate, same, flood_admits kind port count rate k p1 p2 n1 n2 r1 r2 paced)

specs_of : Option WorkloadSpec → List ParamSpec
specs_of none = []
specs_of (some w) = w.params

-- The checks of an accepted request, read for the workload it names.
named :
    (body : Members) (r : Accepted)
    → validate_request (object body) ≡ ok r
    → (name : String) (w : WorkloadSpec) → r.workload ≡ name
    → lookup name workloads ≡ some w
    → Fits name w.params r.params × (cross_check name r.params ≡ ok tt)
unfolding specs_of
named body r h name w e known =
    let (spec, (found, _, fits, _)) = validate_request-Checked body r h in
    let cross = (validate_request-Passed body r h).cross in
    let found' = subst (λ x. lookup x workloads ≡ some spec) e found in
    let specs : spec.params ≡ w.params = ap specs_of (sym found' ∙ known) in
    (
      subst (λ s. Fits name s r.params) specs (subst (λ x. Fits x spec.params r.params) e fits),
      subst (λ x. cross_check x r.params ≡ ok tt) e cross,
    )

-- A flood that the dashboard accepts has the four parameters of its catalog entry, and
-- `WorkloadLimits.flood` with the default limits admits exactly those values, the pacing included.
pub validate_request-flood :
    (body : Members) (r : Accepted)
    → validate_request (object body) ≡ ok r
    → r.workload ≡ "flood"
    → (kind : String) × (port : ℕ) × (count : ℕ) × (rate : ℕ) × (r.params
        ≡ flood_params kind port count rate)
      × (flood default_limits kind (whole (pos port)) (whole (pos count)) (whole (pos rate))
          ≡ ok tt)
unfolding lookup
validate_request-flood body r h e =
    let (fits, cross) = named body r h "flood" _ e refl in Fits-flood r.params fits cross

abbrev duration_specs : List ParamSpec
duration_specs = number_param "duration" 60 ∷ []

abbrev thread_specs : List ParamSpec
thread_specs = number_param "threads" 4 ∷ duration_specs

unfoldable pub wrk_params : ℕ → ℕ → ℕ → Params
wrk_params connections threads duration =
    ("connections", int connections) ∷ ("threads", int threads) ∷ ("duration", int duration) ∷ []

wrk_admits :
    (c t d : ℕ)
    → 1 ≤ c
    → c ≤ 10000
    → 1 ≤ t
    → t ≤ 64
    → 1 ≤ d
    → d ≤ 300
    → leb t c ≡ true
    → wrk default_limits (whole (pos c)) (whole (pos t)) (whole (pos d)) ≡ ok tt
unfolding wrk bounded_int
wrk_admits c t d c1 c2 t1 t2 d1 d2 h = grind arith

-- Load that the dashboard accepts has the three parameters of its catalog entry, and
-- `WorkloadLimits.wrk` with the default limits admits exactly those values.
pub validate_request-wrk :
    (body : Members) (r : Accepted)
    → validate_request (object body) ≡ ok r
    → r.workload ≡ "wrk"
    → (connections : ℕ) × (threads : ℕ) × (duration : ℕ) × (r.params
        ≡ wrk_params connections threads duration)
      × (wrk default_limits (whole (pos connections)) (whole (pos threads)) (whole (pos duration))
          ≡ ok tt)
unfolding lookup limit_of cross_check number wrk_params
validate_request-wrk body r h e =
    let (fits, cross) = named body r h "wrk" _ e refl in
    let (c, rest, e1, c1, c2, f1) =
      Fits-number "wrk" "connections" thread_specs r.params 100 fits in
    let (t, rest2, e2, t1, t2, f2) = Fits-number "wrk" "threads" duration_specs rest 4 f1 in
    let (d, rest3, e3, d1, d2, f3) = Fits-number "wrk" "duration" [] rest2 60 f2 in
    let same : r.params ≡ wrk_params c t d = rw (e1, e2, e3, Fits-nil "wrk" rest3 f3) refl in
    let (fewer, _) =
      >>-eq-ok (guard (leb t c) value_error) _
        (subst (λ x. cross_check "wrk" x ≡ ok tt) same cross) in
    (c, t, d, same, wrk_admits c t d c1 c2 t1 t2 d1 d2 (guard-eq-ok (leb t c) value_error fewer))
