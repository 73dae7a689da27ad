-- ===== src/Dashboard/Request/Bounds.antt =====
-- What a request that `validate_request` accepts has been checked for.
use srx.Prelude.{
  ◌≤◌, ◌≡◌, refl, ap, sym, ◌∙◌, ◌⊎◌, ◌*◌, not, any, length, leb, guard-eq-ok, inl, inr, Bool, true,
  false, ◌||◌, Option, none, some, String, List, [], ◌∷◌, map, lookup, eq_string, ◌==◌, Bool-cases,
  ok, err, value_error, >>=-eq-ok, guard, ok_inj, >>-eq-ok, subst, arith, if◌then◌else◌,
}
use srx.Prelude.Int.{ℤ, pos, negsuc}
use srx.Dashboard.Run.{Param, Params, int, str}
use srx.Dashboard.Catalog.{Kind, int_kind, str_kind, ParamSpec, WorkloadSpec, workloads, limit_of}
use srx.Dashboard.Fields.{
  Json, Members, object, boolean, get, check_number, check_text, check_kind, check_params,
  clean_text, to_number, in_range, is_admitted,
}
use srx.Dashboard.Request.{
  Accepted, check_confirmed, known_keys, request_keys, check_target, check_src, check_request_id,
  params_of, workload_of, found, validate_request, cross_check, number,
}
use srx.Dashboard.Escape.{is_control}
use srx.Prelude.Text.{codes}
use srx.Limits.{interval_us}
use srx.Dashboard.Request.Texts.{IsText, clean_text_lem, is_admitted-IsText}

-- A value of the right kind: a number from 1 to its ceiling, or such a text.
abbrev pub Within : Kind → String → ParamSpec → Param → Type 0
Within int_kind workload p (int n) = (1 ≤ n) × (n ≤ limit_of workload p.name)
Within int_kind workload p (str s) = ⊥
Within str_kind workload p (int n) = ⊥
Within str_kind workload p (str s) = IsText workload p s

-- The parameters are those of the catalog, in its order, each within its bounds.
abbrev pub Fits : String → List ParamSpec → Params → Type 0
Fits workload [] [] = Unit
Fits workload [] (c ∷ clean) = ⊥
Fits workload (p ∷ specs) [] = ⊥
Fits workload (p ∷ specs) ((k, v) ∷ clean) =
    (k ≡ p.name) × Within p.kind workload p v × Fits workload specs clean

in_range-Within :
    (workload : String) (p : ParamSpec) (n : ℤ) (v : Param)
    → in_range (limit_of workload p.name) n ≡ ok v
    → Within int_kind workload p v
unfolding in_range
in_range-Within workload p (pos n) (int m) h = ground arith
in_range-Within workload p (pos n) (str s) h = absurd (ground arith)
in_range-Within workload p (negsuc n) v h = absurd (cc h)

check_number-Within :
    (workload : String) (p : ParamSpec) (value : Json) (v : Param)
    → check_number workload p.name value ≡ ok v
    → Within int_kind workload p v
unfolding check_number
check_number-Within workload p value v h =
    let (n, _, q) = >>=-eq-ok (to_number value) (in_range (limit_of workload p.name)) h in
    in_range-Within workload p n v q

check_text-Within :
    (workload : String) (p : ParamSpec) (value : Json) (v : Param)
    → check_text workload p value ≡ ok v
    → Within str_kind workload p v
unfolding check_text
check_text-Within workload p value v h =
    let (s, clean, q) = >>=-eq-ok (clean_text value (if p.name == "path" then 2048 else 253)) _ h in
    let (short, printed) = clean_text_lem value (if p.name == "path" then 2048 else 253) s clean in
    admitted s short printed q
  where
    admitted :
        (s : String)
        → length (codes s) ≤ (if p.name == "path" then 2048 else 253)
        → any is_control (codes s) ≡ false
        → (if is_admitted workload p s then ok (str s) else err value_error) ≡ ok v
        → Within str_kind workload p v
    admitted s short printed q = elim (Bool-cases (is_admitted workload p s)) [
      | inl admits ↦
          subst (Within str_kind workload p) {x = str s} (ground arith)
            (is_admitted-IsText workload p s short printed admits)
      | inr refused ↦ absurd (ground arith)
    ]

check_kind-Within :
    (kind : Kind) (workload : String) (p : ParamSpec) (value : Json) (v : Param)
    → check_kind kind workload p value ≡ ok v
    → Within kind workload p v
unfolding check_kind
check_kind-Within int_kind workload p value v h = check_number-Within workload p value v h
check_kind-Within str_kind workload p value v h = check_text-Within workload p value v h

check_params-Fits :
    (workload : String) (specs : List ParamSpec) (params : Members) (clean : Params)
    → check_params workload specs params ≡ ok clean
    → Fits workload specs clean
unfolding check_params
check_params-Fits workload [] params [] h = tt
check_params-Fits workload [] params (c ∷ clean) h = cc
check_params-Fits workload (p ∷ specs) params clean h =
    let (v, q, more) = >>=-eq-ok (check_kind p.kind workload p _) _ h in
    let (rest, r, e) = >>=-eq-ok (check_params workload specs params) _ more in
    subst (Fits workload (p ∷ specs)) (ok_inj e) (
      refl,
      check_kind-Within p.kind workload p _ v q,
      check_params-Fits workload specs params rest r,
    )

confirmed :
    (aggressive : Bool) (value : Option Json)
    → check_confirmed aggressive value ≡ ok tt
    → (aggressive ≡ false) ⊎ (value ≡ some (boolean true))
unfolding check_confirmed
confirmed false value h = inl refl
confirmed true none h = cc
confirmed true (some (boolean true)) h = inr refl
confirmed true (some (boolean false)) h = cc
confirmed true (some Json.null) h = cc
confirmed true (some Json.real) h = cc
confirmed true (some Json.array) h = cc
confirmed true (some (Json.integer n)) h = cc
confirmed true (some (Json.string s)) h = cc
confirmed true (some (object m)) h = cc

found-eq-ok :
    (s : String) (o : Option WorkloadSpec) (w : String × WorkloadSpec)
    → found s o ≡ ok w
    → (s ≡ w.0) × (o ≡ some w.1)
unfolding found
found-eq-ok s none w h = cc
found-eq-ok s (some spec) w h = (ap (λ x. x.0) (ok_inj h), ap (λ x. some x.1) (ok_inj h))

pub workload_of-lookup :
    (value : Option Json) (w : String × WorkloadSpec)
    → workload_of value ≡ ok w
    → lookup w.0 workloads ≡ some w.1
unfolding workload_of
workload_of-lookup none w h = cc
workload_of-lookup (some (Json.string s)) w h =
    let (name, spec) = found-eq-ok s (lookup s workloads) w h in
    ap (λ x. lookup x workloads) (sym name) ∙ spec
workload_of-lookup (some value) w h = cc

-- The checks that an accepted request has passed, one after another.
pub record Passed (body : Members) (r : Accepted) : Type 0 where
  pub spec : WorkloadSpec
  pub params : Members
  pub workload : workload_of (get "workload" body) ≡ ok (r.workload, spec)
  pub target : check_target (get "target" body) ≡ ok r.target
  pub src : check_src (get "src" body) ≡ ok r.src
  pub confirm : check_confirmed spec.aggressive (get "confirm_aggressive" body) ≡ ok tt
  pub clean : check_params r.workload spec.params params ≡ ok r.params
  pub cross : cross_check r.workload r.params ≡ ok tt

pub validate_request-Passed :
    (body : Members) (r : Accepted) → validate_request (object body) ≡ ok r → Passed body r
unfolding validate_request
validate_request-Passed body r h =
    let (_, h1) = >>-eq-ok (guard (known_keys request_keys body) value_error) _ h in
    let (w, found, h2) = >>=-eq-ok (workload_of (get "workload" body)) _ h1 in
    let (target, reach, h3) = >>=-eq-ok (check_target (get "target" body)) _ h2 in
    let (src, from, h4) = >>=-eq-ok (check_src (get "src" body)) _ h3 in
    let (confirm, h5) =
      >>-eq-ok (check_confirmed (w.1).aggressive (get "confirm_aggressive" body)) _ h4 in
    let (request_id, _, h6) = >>=-eq-ok (check_request_id (get "request_id" body)) _ h5 in
    let (params, _, h7) = >>=-eq-ok (params_of (get "params" body)) _ h6 in
    let (_, h8) =
      >>-eq-ok (guard (known_keys (map (λ p. p.name) (w.1).params) params) value_error) _ h7 in
    let (clean, passes, h9) = >>=-eq-ok (check_params w.0 (w.1).params params) _ h8 in
    let (cross, h10) = >>-eq-ok (cross_check w.0 clean) _ h9 in
    subst (Passed body) (ok_inj h10) (record {
      spec = w.1;
      params = params;
      workload = found;
      target = reach;
      src = from;
      confirm = confirm;
      clean = passes;
      cross = cross;
    })

-- The bounds across parameters: no more threads than connections, and a flood of at most 300 seconds.
abbrev pub IsPaced : String → Params → Type 0
IsPaced workload clean =
    ((workload == "wrk") ≡ true → number "threads" clean ≤ number "connections" clean)
    × ((workload == "flood") ≡ true
        → number "count" clean * interval_us (number "rate" clean) ≤ 300000000)

cross_check-IsPaced :
    (workload : String) (clean : Params)
    → cross_check workload clean ≡ ok tt
    → IsPaced workload clean
unfolding cross_check
cross_check-IsPaced workload clean h =
    let (a, q) =
      >>-eq-ok
        (guard
          (not (workload == "wrk") || leb (number "threads" clean) (number "connections" clean))
          value_error)
        _ h in
    let x = guard-eq-ok _ value_error a in
    let y = guard-eq-ok _ value_error q in (λ e. ground arith, λ e. ground arith)

-- What the checks establish of an accepted request.
abbrev pub Checked : Members → Accepted → WorkloadSpec → Type 0
Checked body r spec =
    (lookup r.workload workloads ≡ some spec)
    × ((spec.aggressive ≡ false) ⊎ (get "confirm_aggressive" body ≡ some (boolean true)))
    × Fits r.workload spec.params r.params
    × IsPaced r.workload r.params

-- An accepted request names a workload of the catalog and has the parameters of that workload. A number
-- is from 1 to its ceiling. A text is not empty, not longer than 2048 characters for a path and 253
-- otherwise, has no control character, and is one of the choices if there are any; a path begins with
-- a slash, that of a crawl passes `is_crawl_path`, and a DNS name has the characters of one. There
-- are no more threads than connections, a flood lasts at most 300 seconds, and, if the workload is
-- aggressive, `confirm_aggressive` is true.
pub validate_request-Checked :
    (body : Members) (r : Accepted)
    → validate_request (object body) ≡ ok r
    → (spec : WorkloadSpec) × Checked body r spec
validate_request-Checked body r h =
    let passed = validate_request-Passed body r h in
    (
      passed.spec,
      (
        workload_of-lookup _ (r.workload, passed.spec) passed.workload,
        confirmed (passed.spec).aggressive _ passed.confirm,
        check_params-Fits r.workload (passed.spec).params passed.params r.params passed.clean,
        cross_check-IsPaced r.workload r.params passed.cross,
      ),
    )
