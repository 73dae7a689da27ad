-- ===== src/Dashboard/Request.antt =====
-- `validate_request` of srx-dashboard/dashboard.py. Every refusal is a ValueError.
pub mod Texts
pub mod Bounds
pub mod Limits
mod Examples
use srx.Prelude.{
  ℕ, zero, suc, ◌+◌, ◌-◌, ◌*◌, ◌<◌, Bool, true, false, not, ◌&&◌, ◌||◌, Option, none, some, String,
  List, [], ◌∷◌, ◌++◌, map, all, any, is_some, leb, ltb, nat_eq, length, contains, lookup,
  eq_string, ◌==◌, Result, ok, err, value_error, ◌>>=◌, ◌>>◌, guard, if◌then◌else◌,
}
use srx.Prelude.Int.{ℤ, pos, negsuc}
use srx.Prelude.Text.{codes, is_digit, is_alnum}
use srx.Address.{is_ip_address}
use srx.Dashboard.Catalog.{Kind, int_kind, str_kind, ParamSpec, WorkloadSpec, workloads, limit_of}
use srx.Dashboard.Run.{Param, Params, int, str}
use srx.Limits.{interval_us}
use srx.Dashboard.Fields.{
  Json, Members, null, real, array, boolean, integer, string, object, end, member, get, clean_text,
  matches, target_tail, check_params,
}

-- `not (set(d) - known)`
unfoldable pub known_keys : List String → Members → Bool
known_keys known end = true
known_keys known (member k v m) = contains known k && known_keys known m

abbrev pub request_keys : List String
request_keys = "workload" ∷ "target" ∷ "src" ∷ "params" ∷ "confirm_aggressive" ∷ "request_id" ∷ []

-- `[A-Za-z0-9_-]{8,80}`
unfoldable pub is_request_id : String → Bool
is_request_id s =
    let cs = codes s in
    all (λ c. is_alnum c || nat_eq c b'_' || nat_eq c b'-') cs
    && leb 8 (length cs)
    && leb (length cs) 80

-- `clean[name]` of a numeric parameter.
unfoldable pub number : String → Params → ℕ
number name clean = value (lookup name clean)
  where
    value : Option Param → ℕ
    value (some (int n)) = n
    value v = 0

-- The two checks across parameters.
unfoldable pub cross_check : String → Params → Result (Unit {0})
unfolding number
cross_check workload clean = do
  _ ←
      guard (not (workload == "wrk") || leb (number "threads" clean) (number "connections" clean))
        value_error
  guard
      (not (workload == "flood")
        || leb (number "count" clean * interval_us (number "rate" clean)) 300000000)
      value_error

pub record Accepted : Type 0 where
  pub workload : String
  pub target : String
  pub src : String
  pub params : Params
  pub request_id : Option String

unfoldable pub check_src : Option Json → Result String
check_src none = ok ""
check_src (some value) = do
  s ← clean_text value 45
  _ ← guard (s == "" || is_ip_address s) value_error
  ok s

-- `confirm_aggressive`, if given, is a bool, and an aggressive workload needs `True`.
unfoldable pub check_confirmed : Bool → Option Json → Result (Unit {0})
check_confirmed aggressive none = guard (not aggressive) value_error
check_confirmed aggressive (some (boolean b)) = guard (not aggressive || b) value_error
check_confirmed aggressive (some value) = err value_error

unfoldable pub check_request_id : Option Json → Result (Option String)
unfolding is_request_id
check_request_id none = ok none
check_request_id (some null) = ok none
check_request_id (some (string s)) = do _ ← guard (is_request_id s) value_error; ok (some s)
check_request_id (some value) = err value_error

unfoldable pub params_of : Option Json → Result Members
params_of none = ok end
params_of (some (object m)) = ok m
params_of (some value) = err value_error

unfoldable pub found : String → Option WorkloadSpec → Result (String × WorkloadSpec)
found s (some w) = ok (s, w)
found s none = err value_error

unfoldable pub workload_of : Option Json → Result (String × WorkloadSpec)
unfolding found
workload_of (some (string s)) = found s (lookup s workloads)
workload_of value = err value_error

unfoldable pub check_target : Option Json → Result String
unfolding matches
check_target none = err value_error
check_target (some value) = do
  s ← clean_text value 253
  _ ← guard (matches is_alnum target_tail (codes s)) value_error
  ok s

unfoldable pub validate_request : Json → Result Accepted
unfolding known_keys get workload_of check_target check_src check_confirmed check_request_id
    params_of
validate_request (object body) = do
  _ ← guard (known_keys request_keys body) value_error
  w ← workload_of (get "workload" body)
  target ← check_target (get "target" body)
  src ← check_src (get "src" body)
  _ ← check_confirmed (w.1).aggressive (get "confirm_aggressive" body)
  request_id ← check_request_id (get "request_id" body)
  params ← params_of (get "params" body)
  _ ← guard (known_keys (map (λ p. p.name) (w.1).params) params) value_error
  clean ← check_params w.0 (w.1).params params
  _ ← cross_check w.0 clean
  ok (record {
    workload = w.0;
    target = target;
    src = src;
    params = clean;
    request_id = request_id;
  })
validate_request value = err value_error
