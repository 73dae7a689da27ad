-- ===== src/Dashboard/Command.antt =====
-- `make_cmd` of srx-dashboard/dashboard.py: the argument vector of a run, on this host or over ssh. An
-- argument is its code points. `shlex.quote` is Python's.
pub mod Shell
pub mod Quoting
pub mod Validated
pub mod Remote
mod Examples
use srx.Prelude.{
  ℕ, Bool, true, false, not, ◌&&◌, ◌||◌, Option, none, some, String, List, [], ◌∷◌, ◌++◌, map, all,
  nat_eq, lookup, contains, eq_string, ◌==◌, if◌then◌else◌,
}
use srx.Prelude.Text.{codes, is_alnum, decimal}
use srx.Dashboard.Run.{Param, Params, int, str}
use srx.Dashboard.Catalog.{ParamSpec, WorkloadSpec, workloads}

abbrev pub Text : Type 0
Text = List ℕ

-- A character that needs no quotes: `[\w@%+=:,./-]` in ASCII.
unfoldable pub is_safe : ℕ → Bool
is_safe c =
    is_alnum c
    || nat_eq c b'_'
    || nat_eq c b'@'
    || nat_eq c b'%'
    || nat_eq c b'+'
    || nat_eq c b'='
    || nat_eq c b':'
    || nat_eq c b','
    || nat_eq c b'.'
    || nat_eq c b'/'
    || nat_eq c b'-'

-- `s.replace("'", "'\"'\"'")`
unfoldable pub requoted : Text → Text
requoted [] = []
requoted (c ∷ s) = (if nat_eq c 39 then 39 ∷ 34 ∷ 39 ∷ 34 ∷ 39 ∷ [] else c ∷ []) ++ requoted s

-- `shlex.quote(s)`
unfoldable pub quote : Text → Text
quote [] = 39 ∷ 39 ∷ []
quote (c ∷ s) = if all is_safe (c ∷ s) then c ∷ s else 39 ∷ requoted (c ∷ s) ++ 39 ∷ []

-- `" ".join(shlex.quote(a) for a in argv)`
unfoldable pub joined : List Text → Text
joined [] = []
joined (a ∷ []) = quote a
joined (a ∷ b ∷ argv) = quote a ++ (32 ∷ joined (b ∷ argv))

-- The dashboard's settings: CLIENT_HOST and CLIENT_REPO, and for a local run the interpreter that was
-- found and the path of the command.
pub record Config : Type 0 where
  pub client_host : String
  pub client_repo : String
  pub local_python : String
  pub local_cli : String

unfoldable pub text_of : Param → Text
unfolding decimal
text_of (int n) = codes (decimal n)
text_of (str s) = codes s

-- `val is None or val == ""`
unfoldable pub is_unset : Option Param → Bool
is_unset none = true
is_unset (some (int n)) = false
is_unset (some (str s)) = s == ""

unfoldable pub value_text : Option Param → Text
unfolding text_of
value_text none = []
value_text (some v) = text_of v

-- `f"--{name}"`
unfoldable pub option_name : String → Text
option_name name = 45 ∷ 45 ∷ codes name

-- The loop over the parameters of the catalog.
unfoldable pub options : List ParamSpec → Params → List Text
unfolding is_unset value_text option_name
options [] params = []
options (p ∷ specs) params =
    let val = lookup p.name params in
    (if is_unset val then [] else option_name p.name ∷ value_text val ∷ []) ++ options specs params

unfoldable pub py : Config → Text
py c =
    if c.client_host == ""
    then codes c.local_python
    else codes c.client_repo ++ codes "/venv/bin/python"

unfoldable pub cli : Config → Text
cli c =
    if c.client_host == ""
    then codes c.local_cli
    else codes c.client_repo ++ codes "/deploy/srx_workload.py"

unfoldable pub src_option : String → List Text
src_option src = if src == "" then [] else codes "--src" ∷ codes src ∷ []

-- The arguments without `sudo`.
unfoldable pub cli_argv : Config → WorkloadSpec → String → String → String → Params → List Text
unfolding py cli src_option options
cli_argv c spec workload target src params =
    py c ∷ cli c ∷ codes "--target" ∷ codes target ∷ src_option src
    ++ (codes "--yes" ∷ codes workload ∷ options spec.params params)

unfoldable pub with_sudo : Bool → List Text → List Text
with_sudo use_sudo argv = if use_sudo then codes "sudo" ∷ codes "-n" ∷ argv else argv

-- The text that ssh hands to the shell of the client.
unfoldable pub remote_cmd : Config → List Text → Text
remote_cmd c argv =
    codes "cd " ++ (quote (codes c.client_repo) ++ (codes " && exec " ++ joined argv))

unfoldable pub ssh_argv : Config → Text → List Text
ssh_argv c cmd =
    codes "ssh"
    ∷ codes "-o"
    ∷ codes "BatchMode=yes"
    ∷ codes "-o"
    ∷ codes "ServerAliveInterval=15"
    ∷ codes "-o"
    ∷ codes "ServerAliveCountMax=3"
    ∷ codes "-tt"
    ∷ codes c.client_host
    ∷ cmd
    ∷ []

pub record Command : Type 0 where
  pub argv : List Text
  pub use_sudo : Bool

unfoldable pub command_of :
    Config → WorkloadSpec → String → String → String → Params → Bool → Command
unfolding cli_argv with_sudo remote_cmd ssh_argv
command_of c spec workload target src params root_ok =
    let use_sudo = spec.root && root_ok in
    let argv = with_sudo use_sudo (cli_argv c spec workload target src params) in
    record {
      argv = if c.client_host == "" then argv else ssh_argv c (remote_cmd c argv);
      use_sudo = use_sudo;
    }

-- `make_cmd`; none is the KeyError of a workload that the catalog lacks.
unfoldable pub make_cmd : Config → String → String → String → Params → Bool → Option Command
unfolding command_of
make_cmd c workload target src params root_ok = elim (lookup workload workloads) [
  | none ↦ none
  | some spec ↦ some (command_of c spec workload target src params root_ok)
]
