-- ===== src/Workload/Examples.antt =====
-- The statements about the suite for one target, where every workload but the load test succeeds.
use mathlib.Core.List.Permᴰ
use srx.Prelude.{
  ◌≡◌, ◌↔◌, ◌⊎◌, refl, true, none, some, String, List, map, length, All, Result, ok, eq_string,
  ◌==◌, arith, if◌then◌else◌,
}
use Prim.Native.String.{◌++◌ as append}
use srx.Prelude.Int.{pos}
use srx.Limits.{default_limits, bounded_int}
use srx.Workload.{Namespace, Split, Workload, http_port}
use srx.Workload.Suite.{lit, suite, distinct, build_all_workloads, build_all_workloads_lem}
use srx.Workload.Outcomes.{
  Outcome, returned, timeout_expired, WorkloadResult, run_workload, succeeded, do_all, do_all_iff,
}

abbrev all_args : Namespace
all_args = record {
  target = "lab";
  path = "/";
  scheme = "http";
  qname = "";
  app = "";
  type = "";
  url = none;
  port = none;
  max_ports = lit 0;
  count = lit 0;
  rate = lit 0;
  ttl = lit 0;
  connections = lit 0;
  threads = lit 0;
  duration = lit 60;
  parallel = lit 0;
  max_bytes = lit 0;
  timeout = lit 0;
}

abbrev lab_split : String → Result Split
lab_split url = ok (record { scheme = "http"; hostname = some "lab"; port = ok none })

abbrev no_check : Namespace → Result (Unit {0})
no_check a = ok tt

abbrev outcomes : Workload → Outcome
outcomes w = if w.name == "wrk" then timeout_expired "TimeoutExpired" else returned (pos 0) ""

abbrev in_order : List WorkloadResult → List WorkloadResult
in_order results = results

web : http_port lab_split (append "http://" (append all_args.target "/")) ≡ ok 80
unfolding http_port bounded_int
web = refl

build_all_workloads_lem_example :
    (build_all_workloads lab_split no_check default_limits all_args ≡ ok (suite all_args))
    × (length (suite all_args) ≡ 18)
    × (distinct (map (λ w. w.name) (suite all_args)) ≡ true)
build_all_workloads_lem_example =
    build_all_workloads_lem lab_split no_check all_args 60 80 refl (omega arith) (omega arith) refl
      web

do_all_iff_example :
    ((do_all lab_split no_check outcomes in_order default_limits all_args ≡ ok 0)
      ↔ All (λ w. succeeded (run_workload outcomes w) ≡ true) (suite all_args))
    × ((do_all lab_split no_check outcomes in_order default_limits all_args ≡ ok 0)
        ⊎ (do_all lab_split no_check outcomes in_order default_limits all_args ≡ ok 1))
do_all_iff_example =
    do_all_iff lab_split no_check outcomes in_order all_args 60 80 refl (omega arith) (omega arith)
      refl web (λ xs. Permᴰ.refl xs)
