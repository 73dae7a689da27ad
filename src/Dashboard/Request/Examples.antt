-- ===== src/Dashboard/Request/Examples.antt =====
-- The statements about validation at a flood and at a load request.
use srx.Prelude.{ℕ, contains, lookup, any, all, ◌≡◌, refl, true, none, String, [], ◌∷◌, ok}
use srx.Prelude.Int.{pos}
use srx.Limits.{interval_us, whole, default_limits, flood}
use srx.Dashboard.Run.{int, str}
use srx.Dashboard.Catalog.{limit_of, WorkloadSpec}
use srx.Dashboard.Fields.{
  clean_text, check_params, check_number, Members, boolean, integer, string, object, end, member,
}
use srx.Dashboard.Request.{cross_check, Accepted, validate_request}
use srx.Dashboard.Request.Bounds.{Checked, validate_request-Checked}
use srx.Dashboard.Request.Limits.{flood_params, validate_request-flood}

abbrev flood_body : Members
flood_body = member "workload" (string "flood") (
    member "target" (string "10.0.0.2") (
      member "confirm_aggressive" (boolean true) (
        member "params"
          (object (member "count" (integer (pos 1000)) (member "rate" (string "250") end))) end)))

abbrev accepted_flood : Accepted
accepted_flood = record {
  workload = "flood";
  target = "10.0.0.2";
  src = "";
  params = ("type", str "syn") ∷ ("port", int 80) ∷ ("count", int 1000) ∷ ("rate", int 250) ∷ [];
  request_id = none;
}

abbrev wrk_body : Members
wrk_body = member "workload" (string "wrk") (member "target" (string "lab-host") end)

abbrev accepted_wrk : Accepted
accepted_wrk = record {
  workload = "wrk";
  target = "lab-host";
  src = "";
  params = ("connections", int 100) ∷ ("threads", int 4) ∷ ("duration", int 60) ∷ [];
  request_id = none;
}

accepts_flood : validate_request (object flood_body) ≡ ok accepted_flood
unfolding validate_request contains lookup clean_text any all check_params check_number limit_of
    cross_check interval_us
accepts_flood = refl

accepts_wrk : validate_request (object wrk_body) ≡ ok accepted_wrk
unfolding validate_request contains lookup clean_text any all check_params check_number limit_of
    cross_check interval_us
accepts_wrk = refl

validate_request-Checked_example : (spec : WorkloadSpec) × Checked flood_body accepted_flood spec
validate_request-Checked_example = validate_request-Checked flood_body accepted_flood accepts_flood

validate_request-flood_example :
    (kind : String) × (port : ℕ) × (count : ℕ) × (rate : ℕ) × (accepted_flood.params
      ≡ flood_params kind port count rate)
    × (flood default_limits kind (whole (pos port)) (whole (pos count)) (whole (pos rate)) ≡ ok tt)
validate_request-flood_example = validate_request-flood flood_body accepted_flood accepts_flood refl
