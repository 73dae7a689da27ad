-- ===== src/Dashboard/Registry.antt =====
-- `RUNS` and `spawn_run` of srx-dashboard/dashboard.py: the registry of runs, oldest first, and the
-- admission of a new run under RUNS_LOCK. The new run's id is fresh, from `uuid4`.
pub mod Admission
pub mod Retry
mod Examples
use srx.Prelude.{
  ℕ, zero, suc, Bool, true, false, not, ◌&&◌, Option, none, some, String, List, [], ◌∷◌, ◌++◌, any,
  keep, leb, nat_eq, length, drop, is_some, Result, ok, err, admission_error, eq_string, ◌==◌,
  if◌then◌else◌,
}
use srx.Dashboard.Run
use srx.Dashboard.Run.{Run, Request, Batch, Action, Param, Params, int, str, step}

abbrev pub max_runs : ℕ
max_runs = 30

param_eq : Param → Param → Bool
param_eq (int a) (int b) = nat_eq a b
param_eq (str a) (str b) = a == b
param_eq (int a) (str b) = false
param_eq (str a) (int b) = false

params_eq : Params → Params → Bool
unfolding param_eq
params_eq [] [] = true
params_eq ((k, v) ∷ p) ((j, w) ∷ q) = k == j && (param_eq v w && params_eq p q)
params_eq [] (x ∷ q) = false
params_eq (x ∷ p) [] = false

bool_eq : Bool → Bool → Bool
bool_eq true b = b
bool_eq false b = not b

-- `existing.request == request`
pub request_eq : Request → Request → Bool
unfolding params_eq bool_eq
request_eq a b =
    a.workload == b.workload
    && (a.target == b.target
        && (a.src == b.src && (params_eq a.params b.params && bool_eq a.root_ok b.root_ok)))

pub has_request : Request → Option Request → Bool
has_request request none = false
has_request request (some r) = request_eq r request

-- A request id that is given and not empty, against the id of a run.
pub same_id : Option String → Option String → Bool
same_id none other = false
same_id (some rid) none = false
same_id (some rid) (some other) = not (rid == "") && other == rid

-- The first run with the request id, if one is given.
pub find_request : Option String → List Run → Option Run
find_request rid [] = none
find_request rid (r ∷ runs) =
    let rest = find_request rid runs in if same_id rid r.request_id then some r else rest

abbrev pub is_active : Run → Bool
is_active r = not (is_some r.ended)

-- `while len(RUNS) > MAX_RUNS: RUNS.popitem(last=False)`, in rounds bounded by the length.
pub evict : ℕ → List Run → List Run
evict zero runs = runs
evict (suc fuel) runs =
    let rest = evict fuel (drop 1 runs) in if leb (length runs) max_runs then runs else rest

pub fresh_run : String → String → Bool → Request → Option String → ℕ → Run
fresh_run id cmdline use_sudo request rid now =
    record (Run.new id cmdline use_sudo (some request.workload) now) {
      request_id = rid;
      request = some request;
    }

-- The section under the lock: the registry after it, and the run that is returned.
pub spawn : List Run → Run → Request → Option String → Result (List Run × Run)
spawn runs fresh request rid = elim (find_request rid runs) [
  | some existing ↦
      if has_request request existing.request then ok (runs, existing) else err admission_error
  | none ↦
      if any is_active runs
      then err admission_error
      else ok (evict (length (runs ++ fresh ∷ [])) (runs ++ fresh ∷ []), fresh)
]

-- One locked section of the run with the given id.
pub act : (Run → Result Batch) → String → Action → List Run → List Run
act record_batch id a [] = []
act record_batch id a (r ∷ runs) =
    (if r.id == id then step record_batch r a else r) ∷ act record_batch id a runs

-- What happens to the registry.
pub data Call : Type 0 where
  spawns : String → String → Bool → Request → Option String → ℕ → Call
  acts : String → Action → Call

abbrev settle : List Run → Result (List Run × Run) → List Run
settle runs (ok (runs', r)) = runs'
settle runs (err e) = runs

pub serve : (Run → Result Batch) → List Run → List Call → List Run
unfolding fresh_run
serve record_batch runs [] = runs
serve record_batch runs (spawns id cmdline use_sudo request rid now ∷ calls) =
    serve record_batch
      (settle runs (spawn runs (fresh_run id cmdline use_sudo request rid now) request rid)) calls
serve record_batch runs (acts id a ∷ calls) = serve record_batch (act record_batch id a runs) calls
