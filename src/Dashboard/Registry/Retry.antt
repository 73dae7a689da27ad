-- ===== src/Dashboard/Registry/Retry.antt =====
-- A client that repeats a request gets the run that the first one started.
use srx.Prelude.{
  ℕ, zero, suc, ◌≡◌, refl, subst, inl, inr, ◌≢◌, Bool, true, false, Option, none, some, String,
  List, [], ◌∷◌, ◌++◌, length, leb, eq_string, ◌==◌, ==_refl, Bool-cases, Result, ok, arith,
}
use text.Mathlib.TextEquality.{eq_iff}
use srx.Dashboard.Run.{Run, Request, Param, Params, int, str}
use srx.Dashboard.Registry.{
  max_runs, param_eq, params_eq, bool_eq, request_eq, has_request, same_id, find_request, evict,
  fresh_run, spawn,
}
use srx.Dashboard.Registry.Admission.{Outcome, reused, conflict, busy, started, spawn-Outcome}

param_eq_refl : (p : Param) → param_eq p p ≡ true
unfolding param_eq
param_eq_refl (int n) = ground arith
param_eq_refl (str s) = ==_refl s

params_eq_refl : (p : Params) → params_eq p p ≡ true
unfolding params_eq
params_eq_refl [] = refl
params_eq_refl ((k, v) ∷ p) = rw (==_refl k, param_eq_refl v, params_eq_refl p)

bool_eq_refl : (b : Bool) → bool_eq b b ≡ true
unfolding bool_eq
bool_eq_refl true = refl
bool_eq_refl false = refl

request_eq_refl : (r : Request) → request_eq r r ≡ true
unfolding request_eq
request_eq_refl r = rw (
  ==_refl r.workload,
  ==_refl r.target,
  ==_refl r.src,
  params_eq_refl r.params,
  bool_eq_refl r.root_ok,
)

module _ (rid : Option String) (fresh : Run) (mine : same_id rid fresh.request_id ≡ true) where
  find-snoc :
      (runs : List Run)
      → find_request rid runs ≡ none
      → find_request rid (runs ++ fresh ∷ []) ≡ some fresh
  unfolding find_request
  find-snoc [] h = rw mine refl
  find-snoc (r ∷ runs) h = elim (Bool-cases (same_id rid r.request_id)) [
    | inl hit ↦ absurd (cc (rw hit at h))
    | inr miss ↦ rw miss (find-snoc runs (rw miss at h))
  ]

  find_tail :
      (r : Run) (runs : List Run)
      → find_request rid (r ∷ runs) ≡ none
      → find_request rid runs ≡ none
  unfolding find_request
  find_tail r runs h = elim (Bool-cases (same_id rid r.request_id)) [
    | inl hit ↦ absurd (cc (rw hit at h))
    | inr miss ↦ rw miss at h
  ]

  -- Eviction takes from the other end.
  find-evict :
      (fuel : ℕ) (runs : List Run)
      → find_request rid runs ≡ none
      → find_request rid (evict fuel (runs ++ fresh ∷ [])) ≡ some fresh
  unfolding evict
  find-evict zero runs h = find-snoc runs h
  find-evict (suc fuel) [] h = find-snoc [] h
  find-evict (suc fuel) (r ∷ runs) h =
      elim (Bool-cases (leb (length (r ∷ runs ++ fresh ∷ [])) max_runs)) [
        | inl fits ↦ rw fits (find-snoc (r ∷ runs) h)
        | inr over ↦ rw over (find-evict fuel runs (find_tail r runs h))
      ]

same_id_refl : (rid : String) → (rid == "") ≡ false → same_id (some rid) (some rid) ≡ true
unfolding same_id
same_id_refl rid h = rw (h, ==_refl rid)

not_empty : (rid : String) → rid ≢ "" → (rid == "") ≡ false
not_empty rid h = ground (arith, eq_iff rid "")

ok_pair :
    {A B : Type 0} {a c : A} {b d : B}
    → ◌≡◌ {A = Result (A × B)} (ok (a, b)) (ok (c, d))
    → (a ≡ c) × (b ≡ d)
ok_pair h = (cc h, cc h)

module _ (runs runs' : List Run) (fresh : Run) (request : Request) (rid : Option String)
    (r : Run) where
  answered :
      same_id rid fresh.request_id ≡ true
      → has_request request fresh.request ≡ true
      → Outcome runs fresh request rid (ok (runs', r))
      → (find_request rid runs' ≡ some r) × (has_request request r.request ≡ true)
  answered mine same (reused x e h q) = let (p, s) = ok_pair q in (rw (p, s) e, rw s h)
  answered mine same (conflict x e h q) = absurd (cc q)
  answered mine same (busy e h q) = absurd (cc q)
  answered mine same (started e h q) =
      let (p, s) = ok_pair q in
      (rw (p, s) (find-evict rid fresh mine (length (runs ++ fresh ∷ [])) runs e), rw s same)

reuse :
    (runs : List Run) (fresh : Run) (request : Request) (rid : Option String) (r : Run)
    → find_request rid runs ≡ some r
    → has_request request r.request ≡ true
    → spawn runs fresh request rid ≡ ok (runs, r)
unfolding spawn
reuse runs fresh request rid r e h = rw (e, spawn) (rw h refl)

-- If a request with an id that is not empty was answered by a run, the same request with the same id
-- is answered by that run again, whatever new run was prepared for it, and changes nothing.
pub spawn_again :
    (runs runs' : List Run) (id id' cmd cmd' rid : String) (sudo sudo' : Bool) (now now' : ℕ)
    (request : Request) (r : Run)
    → rid ≢ ""
    → spawn runs (fresh_run id cmd sudo request (some rid) now) request (some rid) ≡ ok (runs', r)
    → spawn runs' (fresh_run id' cmd' sudo' request (some rid) now') request (some rid)
      ≡ ok (runs', r)
unfolding fresh_run has_request
spawn_again runs runs' id id' cmd cmd' rid sudo sudo' now now' request r given h =
    let found =
      answered runs runs' (fresh_run id cmd sudo request (some rid) now) request (some rid) r
        (same_id_refl rid (not_empty rid given)) (request_eq_refl request)
        (subst (Outcome runs (fresh_run id cmd sudo request (some rid) now) request (some rid)) h
          (spawn-Outcome runs (fresh_run id cmd sudo request (some rid) now) request (some rid))) in
    reuse runs' (fresh_run id' cmd' sudo' request (some rid) now') request (some rid) r found.0
      found.1
