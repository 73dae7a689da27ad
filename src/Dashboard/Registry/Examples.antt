-- ===== src/Dashboard/Registry/Examples.antt =====
-- The statements about the registry at two requests.
use srx.Prelude.{
  ◌≡◌, ◌≢◌, ◌≤◌, refl, false, none, some, String, List, [], ◌∷◌, length, any, Result, ok, err,
  os_error,
}
use srx.Prelude.Int.{pos}
use srx.Dashboard.Run.{Run, Request, Batch, finishes}
use srx.Dashboard.Registry.{
  Call, spawns, acts, max_runs, evict, find_request, fresh_run, spawn, serve,
}
use srx.Dashboard.Registry.Admission.{active, serve-empty-IsBounded}
use srx.Dashboard.Registry.Retry.{spawn_again}

abbrev unrecorded : Run → Result Batch
unrecorded r = err os_error

abbrev http_request : Request
http_request = record {
  workload = "http";
  target = "10.0.0.2";
  src = "";
  params = [];
  root_ok = false;
}

abbrev other_request : Request
other_request = record {
  workload = "dns";
  target = "10.0.0.2";
  src = "";
  params = [];
  root_ok = false;
}

abbrev retry_id : String
retry_id = "retry-0001"

abbrev http_run : Run
http_run = fresh_run "a1" "http" false http_request (some retry_id) 5

abbrev calls : List Call
calls =
    spawns "a1" "http" false http_request (some retry_id) 5
    ∷ spawns "b2" "dns" false other_request none 6
    ∷ acts "a1" (finishes (pos 0) 9)
    ∷ spawns "c3" "dns" false other_request none 10
    ∷ []

spawned : spawn [] http_run http_request (some retry_id) ≡ ok (http_run ∷ [], http_run)
unfolding spawn find_request any evict
spawned = refl

id_given : retry_id ≢ ""
id_given e = cc

serve-empty-IsBounded_example :
    (active (serve unrecorded [] calls) ≤ 1) × (length (serve unrecorded [] calls) ≤ max_runs)
serve-empty-IsBounded_example = serve-empty-IsBounded unrecorded calls

spawn_again_example :
    spawn
      (http_run ∷ [])
      (fresh_run "z9" "http" false http_request (some retry_id) 8)
      http_request
      (some retry_id)
    ≡ ok (http_run ∷ [], http_run)
spawn_again_example =
    spawn_again [] (http_run ∷ []) "a1" "z9" "http" "http" retry_id false false 5 8 http_request
      http_run id_given spawned
