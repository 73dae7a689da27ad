-- ===== src/Dashboard/Registry/Admission.antt =====
-- At most one run is active, at most 30 are kept, and a repeated request gets the run it started.
use srx.Prelude.{
  ℕ, zero, suc, ◌+◌, ◌≤◌, ◌≡◌, refl, ap, inl, inr, true, false, Option, none, some, String, List,
  [], ◌∷◌, ◌++◌, length, length-append, length-drop, drop, any, is_some, eq_string, Bool-cases,
  Option-cases, Result, ok, err, admission_error, arith, if◌then◌else◌,
}
use srx.Dashboard.Run.{
  Run, Request, Batch, Action, step, emit, publish, finish, subscribe, unsubscribe, launch,
  request_stop, emits, finishes, subscribes, unsubscribes, reads, launches, stops,
}
use srx.Dashboard.Registry.{
  max_runs, find_request, has_request, is_active, evict, fresh_run, spawn, act, Call, spawns, acts,
  settle, serve,
}

-- The number of active runs.
pub active : List Run → ℕ
active [] = 0
active (r ∷ runs) = if is_some r.ended then active runs else suc (active runs)

any-active : (runs : List Run) → any is_active runs ≡ false → active runs ≡ 0
unfolding any active
any-active [] h = refl
any-active (r ∷ runs) h = ground (arith, any-active runs)

active-append : (xs ys : List Run) → active (xs ++ ys) ≡ active xs + active ys
unfolding active
active-append [] ys = omega arith
active-append (r ∷ xs) ys = ground (arith, active-append xs ys)

active-drop : (runs : List Run) → active (drop 1 runs) ≤ active runs
unfolding active
active-drop [] = omega arith
active-drop (r ∷ runs) = ground arith

active-evict : (fuel : ℕ) (runs : List Run) → active (evict fuel runs) ≤ active runs
unfolding evict
active-evict zero runs = omega arith
active-evict (suc fuel) runs = ground (arith, active-evict fuel (drop 1 runs), active-drop runs)

length-evict :
    (fuel : ℕ) (runs : List Run)
    → length runs ≤ fuel + max_runs
    → length (evict fuel runs) ≤ max_runs
unfolding evict
length-evict zero runs h = omega arith
length-evict (suc fuel) runs h = ground (arith, length-evict fuel (drop 1 runs), length-drop 1 runs)

-- An ended run is not started again.
step-ended :
    (f : Run → Result Batch) (r : Run) (a : Action)
    → is_some r.ended ≡ true
    → is_some (step f r a).ended ≡ true
unfolding step emit publish finish unsubscribe launch request_stop
step-ended f r (emits line) h = ground arith
step-ended f r (finishes rc now) h = ground arith
step-ended f r (subscribes name last_id) h = unfold subscribe in ground arith
step-ended f r (unsubscribes name) h = h
step-ended f r (reads name) h = h
step-ended f r launches h = ground arith
step-ended f r stops h = ground arith

active-act :
    (f : Run → Result Batch) (id : String) (a : Action) (runs : List Run)
    → active (act f id a runs) ≤ active runs
unfolding act active
active-act f id a [] = omega arith
active-act f id a (r ∷ runs) = ground (arith, active-act f id a runs, step-ended f r a)

length-act :
    (f : Run → Result Batch) (id : String) (a : Action) (runs : List Run)
    → length (act f id a runs) ≡ length runs
unfolding act
length-act f id a [] = refl
length-act f id a (r ∷ runs) = ap suc (length-act f id a runs)

abbrev pub IsBounded : List Run → Type 0
IsBounded runs = (active runs ≤ 1) × (length runs ≤ max_runs)

module _ (runs : List Run) (fresh : Run) (request : Request) (rid : Option String) where
  abbrev outcome : Result (List Run × Run)
  outcome = spawn runs fresh request rid

  -- The registry that an admitted run leaves.
  abbrev pub admitted : List Run
  admitted = evict (length (runs ++ fresh ∷ [])) (runs ++ fresh ∷ [])

  -- The four outcomes of a request, with what decides between them.
  pub data Outcome (result : Result (List Run × Run)) : Type 0 where
    reused :
        (r : Run)
        → find_request rid runs ≡ some r
        → has_request request r.request ≡ true
        → result ≡ ok (runs, r)
        → Outcome result
    conflict :
        (r : Run)
        → find_request rid runs ≡ some r
        → has_request request r.request ≡ false
        → result ≡ err admission_error
        → Outcome result
    busy :
        find_request rid runs ≡ none
        → any is_active runs ≡ true
        → result ≡ err admission_error
        → Outcome result
    started :
        find_request rid runs ≡ none
        → any is_active runs ≡ false
        → result ≡ ok (admitted, fresh)
        → Outcome result

  -- Every request has one of the four outcomes: with a run of the same request id it is answered by
  -- that run or refused, as the arguments agree or not; else it is refused while a run is active, and
  -- otherwise the new run is put last and is the answer.
  pub spawn-Outcome : Outcome (spawn runs fresh request rid)
  unfolding spawn
  spawn-Outcome = elim (Option-cases (find_request rid runs)) [
    | inr (r, e) ↦ elim (Bool-cases (has_request request r.request)) [
      | inl same ↦ reused r e same (rw (e, spawn) (rw same refl))
      | inr other ↦ conflict r e other (rw (e, spawn) (rw other refl))
    ]
    | inl e ↦ elim (Bool-cases (any is_active runs)) [
      | inl some_active ↦ busy e some_active (rw (e, spawn) (rw some_active refl))
      | inr idle ↦ started e idle (rw (e, spawn) (rw idle refl))
    ]
  ]

  size : length (runs ++ fresh ∷ []) ≡ length runs + 1
  size = omega (arith, length-append runs (fresh ∷ []))

  admitted-IsBounded : any is_active runs ≡ false → IsBounded admitted
  admitted-IsBounded idle = (
    omega (
      arith,
      active-evict (length (runs ++ fresh ∷ [])) (runs ++ fresh ∷ []),
      active-append runs (fresh ∷ []),
      any-active runs idle,
      one,
    ),
    length-evict (length (runs ++ fresh ∷ [])) (runs ++ fresh ∷ []) (omega arith),
  )
    where
      one : active (fresh ∷ []) ≤ 1
      one = unfold active in ground arith

  settle-IsBounded :
      (result : Result (List Run × Run))
      → IsBounded runs
      → Outcome result
      → IsBounded (settle runs result)
  settle-IsBounded result v (reused r e h q) = rw q v
  settle-IsBounded result v (conflict r e h q) = rw q v
  settle-IsBounded result v (busy e h q) = rw q v
  settle-IsBounded result v (started e h q) = rw q (admitted-IsBounded h)

serve-IsBounded :
    (f : Run → Result Batch) (calls : List Call) (runs : List Run)
    → IsBounded runs
    → IsBounded (serve f runs calls)
unfolding serve
serve-IsBounded f [] runs v = v
serve-IsBounded f (spawns id cmd sudo request rid now ∷ calls) runs v = serve-IsBounded f calls _ (
    settle-IsBounded runs (fresh_run id cmd sudo request rid now) request rid _ v
      (spawn-Outcome runs (fresh_run id cmd sudo request rid now) request rid))
serve-IsBounded f (acts id a ∷ calls) runs v =
    serve-IsBounded f calls _
      (omega (arith, active-act f id a runs, v.0), omega (arith, length-act f id a runs, v.1))

-- Whatever requests come in and whatever the workers and operators do, at most one run of the
-- registry is active and at most 30 runs are kept.
pub serve-empty-IsBounded :
    (f : Run → Result Batch) (calls : List Call)
    → (active (serve f [] calls) ≤ 1) × (length (serve f [] calls) ≤ max_runs)
serve-empty-IsBounded f calls =
    serve-IsBounded f calls [] (unfold active in (omega arith, omega arith))
