-- ===== src/Dashboard/Command/Examples.antt =====
-- A remote command, and the command of a flood that was accepted.
use srx.Prelude.{
  ◌≡◌, refl, some, none, [], ◌∷◌, true, false, all, any, contains, lookup, map, All, ok, eq_string,
}
use srx.Prelude.Text.{codes}
use srx.Limits.{interval_us}
use srx.Dashboard.Run.{int, str}
use srx.Dashboard.Catalog.{limit_of, WorkloadSpec, workloads}
use srx.Dashboard.Fields.{
  clean_text, check_params, check_number, Members, boolean, string, object, end, member,
}
use srx.Dashboard.Request.{cross_check, Accepted, validate_request}
use srx.Dashboard.Command.Shell.{word, and_if, shell_words}
use srx.Dashboard.Command.{is_safe, requoted, quote, joined, Config, make_cmd, ssh_argv, text_of}
use srx.Dashboard.Command.Validated.{is_flag}
use srx.Dashboard.Command.Remote.{request_argv, sent, make_cmd-validate_request}

read_quoted :
    shell_words (joined (codes "cd" ∷ codes "it's $HOME" ∷ []))
    ≡ some (word (codes "cd") ∷ word (codes "it's $HOME") ∷ [])
unfolding shell_words joined quote all is_safe requoted
read_quoted = refl

abbrev lab : Config
lab = record {
  client_host = "user@203.0.113.10";
  client_repo = "/home/user/srx lab";
  local_python = "/usr/bin/python3";
  local_cli = "/opt/srx/deploy/srx_workload.py";
}

abbrev scan_body : Members
scan_body =
    member "workload" (string "scan")
      (member "target" (string "10.0.0.2") (member "confirm_aggressive" (boolean true) end))

abbrev accepted_scan : Accepted
accepted_scan = record {
  workload = "scan";
  target = "10.0.0.2";
  src = "";
  params = ("type", str "syn") ∷ ("max-ports", int 1024) ∷ [];
  request_id = none;
}

accepts_scan : validate_request (object scan_body) ≡ ok accepted_scan
unfolding validate_request contains lookup clean_text any all check_params check_number limit_of
    cross_check interval_us
accepts_scan = refl

make_cmd-validate_request_example :
    (spec : WorkloadSpec) × (lookup "scan" workloads ≡ some spec)
    × (make_cmd lab "scan" "10.0.0.2" "" accepted_scan.params true
        ≡ some (record { argv = ssh_argv lab (sent lab spec accepted_scan); use_sudo = spec.root }))
    × (shell_words (sent lab spec accepted_scan)
        ≡ some (
            word (codes "cd")
            ∷ word (codes "/home/user/srx lab")
            ∷ and_if
            ∷ word (codes "exec")
            ∷ map word (request_argv lab spec accepted_scan)))
    × (is_flag (codes "10.0.0.2") ≡ false)
    × All (λ v. is_flag (text_of v.1) ≡ false) accepted_scan.params
make_cmd-validate_request_example =
    make_cmd-validate_request lab scan_body accepted_scan refl accepts_scan
