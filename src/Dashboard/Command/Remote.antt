-- ===== src/Dashboard/Command/Remote.antt =====
-- From an accepted request to the words that the client's shell reads.
use srx.Prelude.{
  ◌≡◌, refl, ap, ◌∙◌, subst, Bool, true, false, ◌&&◌, Option, none, some, String, List, [], ◌∷◌,
  ◌++◌, map, All, lookup, all, and-true, eq_string, ◌==◌, arith, ok, value_error, >>=-eq-ok,
  >>-eq-ok, guard, guard-eq-ok, ok_inj,
}
use srx.Prelude.Text.{codes, is_alnum}
use srx.Dashboard.Catalog.{WorkloadSpec, workloads}
use srx.Dashboard.Fields.{Json, Members, object, get, matches, clean_text, target_tail}
use srx.Dashboard.Request.{Accepted, validate_request, check_target}
use srx.Dashboard.Request.Bounds.{validate_request-Passed, workload_of-lookup}
use srx.Dashboard.Command.{
  Text, Config, Command, py, cli, src_option, options, with_sudo, cli_argv, remote_cmd, ssh_argv,
  command_of, make_cmd, text_of,
}
use srx.Dashboard.Command.Shell.{word, and_if, shell_words}
use srx.Dashboard.Command.Quoting.{shell_words-remote_cmd}
use srx.Dashboard.Command.Validated.{is_flag, flags, params-IsValue, options-flags}

alnum_first : (s : Text) → matches is_alnum target_tail s ≡ true → is_flag s ≡ false
unfolding matches is_flag
alnum_first [] h = cc
alnum_first (c ∷ s) h = ground (arith, and-true (is_alnum c) (all target_tail s))

check_target-is_flag :
    (value : Option Json) (s : String) → check_target value ≡ ok s → is_flag (codes s) ≡ false
unfolding check_target
check_target-is_flag none s h = cc
check_target-is_flag (some value) s h =
    let (t, _, q) = >>=-eq-ok (clean_text value 253) _ h in
    let (good, e) =
      >>-eq-ok (guard (matches is_alnum target_tail (codes t)) value_error) (ok t) q in
    subst (λ (x : String). is_flag (codes x) ≡ false) (ok_inj e)
      (alnum_first (codes t) (guard-eq-ok _ value_error good))

-- The arguments of the command for an accepted request, with `sudo` where the workload needs it.
abbrev pub sudo_words : Bool → List Text
sudo_words true = codes "sudo" ∷ codes "-n" ∷ []
sudo_words false = []

abbrev pub plain_argv : Config → Accepted → List Text
plain_argv c r =
    py c ∷ cli c ∷ codes "--target" ∷ codes r.target ∷ src_option r.src
    ++ (codes "--yes" ∷ codes r.workload ∷ flags r.params)

abbrev pub request_argv : Config → WorkloadSpec → Accepted → List Text
request_argv c spec r = sudo_words spec.root ++ plain_argv c r

abbrev pub sent : Config → WorkloadSpec → Accepted → Text
sent c spec r = remote_cmd c (request_argv c spec r)

with_sudo_lem : (b : Bool) (argv : List Text) → with_sudo b argv ≡ sudo_words b ++ argv
unfolding with_sudo
with_sudo_lem true argv = refl
with_sudo_lem false argv = refl

and-true_right : (b : Bool) → (b && true) ≡ b
and-true_right true = refl
and-true_right false = refl

command_of-sent :
    (c : Config) (spec : WorkloadSpec) (r : Accepted)
    → (c.client_host == "") ≡ false
    → options spec.params r.params ≡ flags r.params
    → command_of c spec r.workload r.target r.src r.params true
      ≡ record { argv = ssh_argv c (sent c spec r); use_sudo = spec.root }
unfolding command_of cli_argv
command_of-sent c spec r h e =
    rw (h, e, and-true_right spec.root) refl
    ∙ ap (λ argv. record { argv = ssh_argv c (remote_cmd c argv); use_sudo = spec.root })
        (with_sudo_lem spec.root (plain_argv c r))

make_cmd-known :
    (c : Config) (spec : WorkloadSpec) (r : Accepted)
    → lookup r.workload workloads ≡ some spec
    → make_cmd c r.workload r.target r.src r.params true
      ≡ some (command_of c spec r.workload r.target r.src r.params true)
unfolding make_cmd
make_cmd-known c spec r known =
    ap
      (λ (o : Option WorkloadSpec). elim o as (λ _. Option Command) [
        | none ↦ none
        | some w ↦ some (command_of c w r.workload r.target r.src r.params true)
      ])
      known

words :
    (c : Config) (b : Bool) (a : Text) (argv : List Text)
    → shell_words (remote_cmd c (sudo_words b ++ a ∷ argv))
      ≡ some (
          word (codes "cd")
          ∷ word (codes c.client_repo)
          ∷ and_if
          ∷ word (codes "exec")
          ∷ map word (sudo_words b ++ a ∷ argv))
words c true a argv = shell_words-remote_cmd c (codes "sudo") (codes "-n" ∷ a ∷ argv)
words c false a argv = shell_words-remote_cmd c a argv

-- For an accepted request and a client host that is set, the workload is one of the catalog, the command
-- is ssh with one line, and a shell reads that line as the change of directory and then one word for
-- each argument: the interpreter and the program, behind `sudo -n` exactly if the catalog says that
-- the workload needs root, the target, the source if there is one,
-- the workload, and every parameter of the request as an option and its value. Neither the target nor
-- a value of a parameter is empty or begins with a dash.
pub make_cmd-validate_request :
    (c : Config) (body : Members) (r : Accepted)
    → (c.client_host == "") ≡ false
    → validate_request (object body) ≡ ok r
    → (spec : WorkloadSpec) × (lookup r.workload workloads ≡ some spec)
      × (make_cmd c r.workload r.target r.src r.params true
          ≡ some (record { argv = ssh_argv c (sent c spec r); use_sudo = spec.root }))
      × (shell_words (sent c spec r)
          ≡ some (
              word (codes "cd")
              ∷ word (codes c.client_repo)
              ∷ and_if
              ∷ word (codes "exec")
              ∷ map word (request_argv c spec r)))
      × (is_flag (codes r.target) ≡ false)
      × All (λ v. is_flag (text_of v.1) ≡ false) r.params
make_cmd-validate_request c body r host h =
    let passed = validate_request-Passed body r h in
    let spec = passed.spec in
    let known = workload_of-lookup (get "workload" body) (r.workload, spec) passed.workload in
    (
      spec,
      known,
      make_cmd-known c spec r known
          ∙ ap some (
              command_of-sent c spec r host
                (options-flags spec passed.params r.workload r.params known passed.clean)),
      words c spec.root (py c) _,
      check_target-is_flag (get "target" body) r.target passed.target,
      params-IsValue spec passed.params r.workload r.params known passed.clean,
    )
