-- ===== src/Workload/Outcomes.antt =====
-- `_run_workload`, `run_concurrently` and `do_all` of deploy/srx_workload.py. `as_completed` gives the
-- results in any order; elapsed time and metadata are not modelled.
use mathlib.Core.List.{Permᴰ}
use srx.Prelude.{
  ℕ, zero, suc, ◌≤◌, ◌≡◌, refl, ap, sym, ◌∙◌, ◌↔◌, ◌⊎◌, inl, inr, Bool, true, false, not, ◌&&◌,
  none, String, List, [], ◌∷◌, map, length, any, All, Bool-cases, eq_string, ◌==◌, Result, ok,
  ok_inj, ◌>>=◌, arith, if◌then◌else◌,
}
use Prim.Native.String.{◌++◌ as append}
use srx.Prelude.Int.{ℤ, pos, negsuc}
use srx.Prelude.Text.{decimal}
use srx.Limits.{WorkloadLimits, default_limits, bounded_int}
use srx.Workload.{
  Namespace, Split, Workload, http_port, done, check_port, by_command, validate_args, validate_all,
}
use srx.Workload.Suite.{lit, suite, build_all_workloads, suite_passes, build_all_workloads_lem}

-- What a workload's function does: it returns an integer with the error text it carries, it returns
-- something else, or it raises; the text of an exception is given.
pub data Outcome : Type 0 where
  returned : ℤ → String → Outcome
  not_an_integer : String → Outcome
  called_process_error : ℤ → String → Outcome
  timeout_expired file_not_found raised : String → Outcome

pub record WorkloadResult : Type 0 where
  pub name : String
  pub returncode : ℤ
  pub error : String

-- `str(n)`
show_int : ℤ → String
show_int (pos n) = decimal n
show_int (negsuc n) = append "-" (decimal (suc n))

abbrev pub is_zero : ℤ → Bool
is_zero (pos zero) = true
is_zero (pos (suc n)) = false
is_zero (negsuc n) = false

unfoldable pub result_of : String → Outcome → WorkloadResult
unfolding show_int
result_of name (returned rc error) = record {
  name = name;
  returncode = rc;
  error =
      if not (is_zero rc) && error == ""
      then append "process exited with status " (show_int rc)
      else error;
}
result_of name (not_an_integer error) = record { name = name; returncode = pos 1; error = error }
result_of name (called_process_error rc error) = record {
  name = name;
  returncode = rc;
  error = error;
}
result_of name (timeout_expired error) = record { name = name; returncode = pos 124; error = error }
result_of name (file_not_found error) = record { name = name; returncode = pos 127; error = error }
result_of name (raised error) = record { name = name; returncode = pos 1; error = error }

unfoldable pub run_workload : (Workload → Outcome) → Workload → WorkloadResult
run_workload exec w = result_of w.name (exec w)

-- `execution_status == "succeeded"`
unfoldable pub succeeded : WorkloadResult → Bool
succeeded r = is_zero r.returncode

module _ (urlsplit : String → Result Split) (target_url : Namespace → Result (Unit {0}))
    (exec : Workload → Outcome) (completed : List WorkloadResult → List WorkloadResult) where
  unfoldable pub run_concurrently : WorkloadLimits → List Workload → Result (List WorkloadResult)
  run_concurrently l [] = ok []
  run_concurrently l (w ∷ ws) = do
    n ← bounded_int (lit (length (w ∷ ws))) l.max_workloads 1
    _ ← validate_all urlsplit target_url l (w ∷ ws)
    ok (completed (map (run_workload exec) (w ∷ ws)))

  -- The exit code of `all`.
  unfoldable pub do_all : WorkloadLimits → Namespace → Result ℕ
  do_all l a = do
    _ ← validate_args urlsplit target_url l a "all"
    workloads ← build_all_workloads urlsplit target_url l a
    results ← run_concurrently l workloads
    ok (if any (λ r. not (succeeded r)) results then 1 else 0)

any-Permᴰ : {A : Type 0} (p : A → Bool) {xs ys : List A} → Permᴰ xs ys → any p xs ≡ any p ys
unfolding any
any-Permᴰ p Permᴰ.nil = refl
any-Permᴰ p (Permᴰ.cons e h) = rw (e, any-Permᴰ p h) refl
any-Permᴰ p (Permᴰ.swap e k) = rw (e, k) (ground arith)
any-Permᴰ p (Permᴰ.trans h k) = any-Permᴰ p h ∙ any-Permᴰ p k

abbrev failed : WorkloadResult → Bool
failed r = not (succeeded r)

-- No run of a list failed.
none_failed :
    (exec : Workload → Outcome) (ws : List Workload)
    → (any (λ r. not (succeeded r)) (map (run_workload exec) ws) ≡ false)
      ↔ All (λ w. succeeded (run_workload exec w) ≡ true) ws
unfolding any
none_failed exec ws = (there ws, back ws)
  where
    there :
        (ws : List Workload)
        → any (λ r. not (succeeded r)) (map (run_workload exec) ws) ≡ false
        → All (λ w. succeeded (run_workload exec w) ≡ true) ws
    there [] h = tt
    there (w ∷ ws) h = ground (arith, there ws)

    back :
        (ws : List Workload)
        → All (λ w. succeeded (run_workload exec w) ≡ true) ws
        → any (λ r. not (succeeded r)) (map (run_workload exec) ws) ≡ false
    back [] h = refl
    back (w ∷ ws) h = rw h.0 (back ws h.1)

module _ (urlsplit : String → Result Split) (target_url : Namespace → Result (Unit {0}))
    (exec : Workload → Outcome) (completed : List WorkloadResult → List WorkloadResult)
    (a : Namespace) (d n : ℕ) (whole_d : a.duration ≡ lit d) (low : 1 ≤ d) (high : d ≤ 300)
    (no_port : a.port ≡ none)
    (web : http_port urlsplit (append "http://" (append a.target "/")) ≡ ok n) where
  preflight : validate_args urlsplit target_url default_limits a "all" ≡ ok tt
  unfolding validate_args check_port by_command done bounded_int
  preflight = rw (no_port, whole_d) (ground arith)

  runs :
      run_concurrently urlsplit target_url exec completed default_limits (suite a)
      ≡ ok (completed (map (run_workload exec) (suite a)))
  unfolding run_concurrently suite bounded_int
  runs = rw (suite_passes urlsplit target_url a d n whole_d low high no_port web) refl

  exit_code :
      do_all urlsplit target_url exec completed default_limits a
      ≡ ok (if any failed (completed (map (run_workload exec) (suite a))) then 1 else 0)
  unfolding do_all
  exit_code =
      rw
        (
          preflight,
          (build_all_workloads_lem urlsplit target_url a d n whole_d low high no_port web).0,
          runs,
        )
        refl

  -- If the arguments pass the checks, `all` ends with exit code 0 or 1, and with 0 exactly if each of
  -- the 18 workloads succeeded, in whatever order their results come in.
  pub do_all_iff :
      ((xs : List WorkloadResult) → Permᴰ (completed xs) xs)
      → ((do_all urlsplit target_url exec completed default_limits a ≡ ok 0)
          ↔ All (λ w. succeeded (run_workload exec w) ≡ true) (suite a))
        × ((do_all urlsplit target_url exec completed default_limits a ≡ ok 0)
            ⊎ (do_all urlsplit target_url exec completed default_limits a ≡ ok 1))
  do_all_iff shuffled = elim (Bool-cases (any failed (completed results))) [
    | inl bad ↦
        let code = exit_code ∙ ap (λ b. ok (if b then 1 else 0)) bad in
        (
          (
            λ h. absurd (omega (arith, ok_inj (sym code ∙ h))),
            λ h. absurd (cc (bad, same, (none_failed exec (suite a)).1 h)),
          ),
          inr code,
        )
    | inr fine ↦
        let code = exit_code ∙ ap (λ b. ok (if b then 1 else 0)) fine in
        ((λ _. (none_failed exec (suite a)).0 (sym same ∙ fine), λ _. code), inl code)
  ]
    where
      results : List WorkloadResult
      results = map (run_workload exec) (suite a)

      same : any failed (completed results) ≡ any failed results
      same = any-Permᴰ failed (shuffled results)
