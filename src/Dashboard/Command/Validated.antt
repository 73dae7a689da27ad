-- ===== src/Dashboard/Command/Validated.antt =====
-- A request that `validate_request` accepts reaches the client whole, and no value of it is read as an
-- option.
use srx.Prelude.{
  ℕ, ◌≡◌, refl, subst, inl, inr, Bool, true, false, not, ◌&&◌, ◌||◌, Option, none, some, String,
  List, [], ◌∷◌, map, all, All, All-imp, contains, lookup, nat_eq, and-true, Bool-cases, eq_string,
  ◌==◌, ==_sym, ==_refl, arith, if◌then◌else◌, ok, err, value_error, >>=-eq-ok, ok_inj,
}
use srx.Prelude.Text.{codes}
use srx.Prelude.Decimal.{digit_first, decimal-digit_first}
use srx.Prelude.Int.{ℤ, pos, negsuc}
use srx.Dashboard.Run.{Param, Params, int, str}
use srx.Dashboard.Catalog.{Kind, int_kind, str_kind, ParamSpec, WorkloadSpec, workloads, limit_of}
use srx.Dashboard.Fields.{
  Json, Members, check_params, check_kind, check_number, check_text, is_admitted, starts_with_slash,
  matches, is_empty, clean_text, in_range, to_number, qname_head, qname_tail,
}
use srx.Dashboard.Command.{Text, is_unset, text_of, option_name, options}

-- Text that is empty or begins with a dash.
unfoldable pub is_flag : Text → Bool
is_flag [] = true
is_flag (c ∷ s) = nat_eq c 45

-- Each parameter as an option and its value.
unfoldable pub flags : Params → List Text
flags [] = []
flags ((k, v) ∷ params) = option_name k ∷ text_of v ∷ flags params

distinct : List ParamSpec → Bool
distinct [] = true
distinct (p ∷ specs) = not (contains (map (λ q. q.name) specs) p.name) && distinct specs

-- A text parameter is a path, a name for DNS, or has choices that are no options.
is_sound : ParamSpec → Bool
unfolding is_empty is_flag
is_sound p =
    p.name == "path"
    || p.name == "qname"
    || (not (is_empty p.choices) && all (λ s. not (is_flag (codes s))) p.choices)

sound_specs : List ParamSpec → Bool
unfolding is_sound
sound_specs [] = true
sound_specs (p ∷ specs) =
    (elim p.kind [ int_kind ↦ true | str_kind ↦ is_sound p ]) && sound_specs specs

sound_catalog :
    all (λ (w : String × WorkloadSpec). distinct (w.1).params && sound_specs (w.1).params) workloads
    ≡ true
unfolding distinct sound_specs all contains
sound_catalog = refl

lookup-all :
    {V : Type 0} (p : V → Bool) (k : String) (d : List (String × V)) (v : V)
    → all (λ (e : String × V). p e.1) d ≡ true
    → lookup k d ≡ some v
    → p v ≡ true
unfolding all lookup
lookup-all p k [] v h q = cc
lookup-all p k ((j, w) ∷ d) v h q = elim (Bool-cases (p w)) [
  | inr e ↦ absurd (cc (rw e at h))
  | inl e ↦ elim (Bool-cases (j == k)) [
    | inl hit ↦
        let same : some w ≡ some v = rw hit at q in
        subst (λ (o : Option _). or_true p o ≡ true) same e
    | inr miss ↦ lookup-all p k d v (rw e at h) (rw miss at q)
  ]
]
  where
    or_true : {V : Type 0} → (V → Bool) → Option V → Bool
    or_true p none = true
    or_true p (some x) = p x

contains-all :
    (p : String → Bool) (s : String) (l : List String)
    → all p l ≡ true
    → contains l s ≡ true
    → p s ≡ true
unfolding all contains
contains-all p s [] h q = cc
contains-all p s (x ∷ l) h q = elim (Bool-cases (p x)) [
  | inr e ↦ absurd (cc (rw e at h))
  | inl e ↦ elim (Bool-cases (x == s)) [
    | inl hit ↦ subst (λ t. p t ≡ true) ((eq_string.beq_iff x s).0 hit) e
    | inr miss ↦ contains-all p s l (rw e at h) (rw miss at q)
  ]
]

-- A parameter of another name is not among the options.
options_skip :
    (specs : List ParamSpec) (k : String) (v : Param) (params : Params)
    → contains (map (λ p. p.name) specs) k ≡ false
    → options specs ((k, v) ∷ params) ≡ options specs params
unfolding options contains lookup
options_skip [] k v params h = refl
options_skip (p ∷ specs) k v params h = elim (Bool-cases (p.name == k)) [
  | inl e ↦ absurd (cc (rw e at h))
  | inr e ↦ rw (==_sym k p.name, e, options_skip specs k v params (rw e at h)) refl
]

-- A value that is given and is not read as an option.
abbrev pub IsValue : Param → Type 0
IsValue v = (is_unset (some v) ≡ false) × (is_flag (text_of v) ≡ false)

-- The parameters of the catalog, in its order, with such values.
abbrev Holds : List ParamSpec → Params → Type 0
Holds [] [] = Unit
Holds [] (c ∷ params) = ⊥
Holds (p ∷ specs) [] = ⊥
Holds (p ∷ specs) ((k, v) ∷ params) = (k ≡ p.name) × IsValue v × Holds specs params

lookup_first : (k : String) (v : Param) (params : Params) → lookup k ((k, v) ∷ params) ≡ some v
unfolding lookup
lookup_first k v params = rw (==_refl k) refl

not-eq-true : (b : Bool) → not b ≡ true → b ≡ false
not-eq-true b h = ground arith

first :
    (p : ParamSpec) (specs : List ParamSpec) (v : Param) (params : Params)
    → distinct (p ∷ specs) ≡ true
    → is_unset (some v) ≡ false
    → options specs params ≡ flags params
    → options (p ∷ specs) ((p.name, v) ∷ params) ≡ flags ((p.name, v) ∷ params)
unfolding distinct flags options option_name text_of
first p specs v params d set more =
    rw
      (
        lookup_first p.name v params,
        set,
        options_skip specs p.name v params (not-eq-true _ (and-true _ (distinct specs) d).0),
        more,
      )
      refl

options-Holds :
    (specs : List ParamSpec) (params : Params)
    → distinct specs ≡ true
    → Holds specs params
    → options specs params ≡ flags params
unfolding options flags distinct
options-Holds [] [] d h = refl
options-Holds [] (c ∷ params) d h = absurd h
options-Holds (p ∷ specs) [] d h = absurd h
options-Holds (p ∷ specs) ((k, v) ∷ params) d h = rw h.0 (
    first p specs v params d h.1.0
      (options-Holds specs params (and-true _ (distinct specs) d).1 h.2))

All-Holds :
    (specs : List ParamSpec) (params : Params) → Holds specs params → All (λ c. IsValue c.1) params
All-Holds [] [] h = tt
All-Holds [] (c ∷ params) h = absurd h
All-Holds (p ∷ specs) [] h = absurd h
All-Holds (p ∷ specs) ((k, v) ∷ params) h = (h.1, All-Holds specs params h.2)

digit_first-is_flag : (s : Text) → digit_first s ≡ true → is_flag s ≡ false
unfolding is_flag
digit_first-is_flag [] h = cc
digit_first-is_flag (c ∷ s) h = ground arith

number-IsValue : (n : ℕ) → IsValue (int n)
unfolding is_unset text_of
number-IsValue n = (refl, digit_first-is_flag _ (decimal-digit_first n))

slash_first : (s : Text) → starts_with_slash s ≡ true → is_flag s ≡ false
unfolding is_flag starts_with_slash
slash_first [] h = cc
slash_first (c ∷ s) h = ground arith

name_first : (s : Text) → matches qname_head qname_tail s ≡ true → is_flag s ≡ false
unfolding is_flag matches
name_first [] h = cc
name_first (c ∷ s) h = ground (arith, and-true (qname_head c) (all qname_tail s))

is_admitted-IsValue :
    (workload : String) (p : ParamSpec) (s : String)
    → is_sound p ≡ true
    → is_admitted workload p s ≡ true
    → IsValue (str s)
unfolding is_admitted is_sound is_unset text_of is_empty
is_admitted-IsValue workload p s sound h = ground (
  arith,
  slash_first (codes s),
  name_first (codes s),
  contains-all (λ t. not (is_flag (codes t))) s p.choices,
)

check_number-IsValue :
    (workload name : String) (value : Json) (v : Param)
    → check_number workload name value ≡ ok v
    → IsValue v
unfolding check_number
check_number-IsValue workload name value v h =
    let (n, _, q) = >>=-eq-ok (to_number value) (in_range _) h in ranged n v q
  where
    ranged : (n : ℤ) (v : Param) → in_range (limit_of workload name) n ≡ ok v → IsValue v
    ranged (pos n) (int m) q = number-IsValue m
    ranged (pos n) (str s) q = unfold in_range in absurd (ground arith)
    ranged (negsuc n) v q = unfold in_range in absurd (cc q)

check_text-IsValue :
    (workload : String) (p : ParamSpec) (value : Json) (v : Param)
    → is_sound p ≡ true
    → check_text workload p value ≡ ok v
    → IsValue v
unfolding check_text
check_text-IsValue workload p value v sound h =
    let (s, _, q) = >>=-eq-ok (clean_text value (if p.name == "path" then 2048 else 253)) _ h in
    admitted s q
  where
    admitted :
        (s : String)
        → (if is_admitted workload p s then ok (str s) else err value_error) ≡ ok v
        → IsValue v
    admitted s q = elim (Bool-cases (is_admitted workload p s)) [
      | inl admits ↦
          subst IsValue (ok_inj (rw admits at q)) (is_admitted-IsValue workload p s sound admits)
      | inr refused ↦ absurd (cc (rw refused at q))
    ]

check_kind-IsValue :
    (kind : Kind) (workload : String) (p : ParamSpec) (value : Json) (v : Param)
    → (elim kind [ int_kind ↦ true | str_kind ↦ is_sound p ]) ≡ true
    → check_kind kind workload p value ≡ ok v
    → IsValue v
unfolding check_kind
check_kind-IsValue int_kind workload p value v sound h =
    check_number-IsValue workload p.name value v h
check_kind-IsValue str_kind workload p value v sound h =
    check_text-IsValue workload p value v sound h

check_params-Holds :
    (workload : String) (specs : List ParamSpec) (params : Members) (clean : Params)
    → sound_specs specs ≡ true
    → check_params workload specs params ≡ ok clean
    → Holds specs clean
unfolding check_params sound_specs
check_params-Holds workload [] params [] sound h = tt
check_params-Holds workload [] params (c ∷ clean) sound h = cc
check_params-Holds workload (p ∷ specs) params clean sound h =
    let (this, others) =
      and-true (elim p.kind [ int_kind ↦ true | str_kind ↦ is_sound p ]) (sound_specs specs)
        sound in
    let (v, q, more) = >>=-eq-ok (check_kind p.kind workload p _) _ h in
    let (rest, r, e) = >>=-eq-ok (check_params workload specs params) _ more in
    subst (Holds (p ∷ specs)) (ok_inj e) (
      refl,
      check_kind-IsValue p.kind workload p _ v this q,
      check_params-Holds workload specs params rest others r,
    )

module _ (spec : WorkloadSpec) (params : Members) (workload : String) (clean : Params)
    (known : lookup workload workloads ≡ some spec)
    (checked : check_params workload spec.params params ≡ ok clean) where
  sound : (distinct spec.params ≡ true) × (sound_specs spec.params ≡ true)
  sound = and-true _ _ (
      lookup-all (λ w. distinct w.params && sound_specs w.params) workload workloads spec
        sound_catalog known)

  clean-Holds : Holds spec.params clean
  clean-Holds = check_params-Holds workload spec.params params clean sound.1 checked

  -- The options of checked parameters are all of these parameters.
  pub options-flags : options spec.params clean ≡ flags clean
  options-flags = options-Holds spec.params clean sound.0 clean-Holds

  pub params-IsValue : All (λ c. is_flag (text_of c.1) ≡ false) clean
  params-IsValue = All-imp _ _ clean (λ c v. v.1) (All-Holds spec.params clean clean-Holds)
