-- ===== src/Workload.antt =====
-- deploy/srx_workload.py: the checks of the arguments, the suite of `all`, the result of a workload and
-- the concurrent run. What a workload does, `urlsplit` and the check of a crawl's URL are arguments.
pub mod Suite
pub mod Outcomes
pub mod Summary
mod Examples
use srx.Prelude.{
  ℕ, zero, suc, ◌≡◌, Bool, true, false, not, ◌&&◌, ◌||◌, Option, none, some, String, List, [], ◌∷◌,
  ◌++◌, map, keep, length, is_some, nat_eq, eq_string, ◌==◌, Result, ok, err, value_error, ◌>>=◌,
  ◌>>◌, guard, if◌then◌else◌,
}
use Prim.Native.String.{◌++◌ as append}
use srx.Prelude.Int.{ℤ, pos, negsuc, eq_ℤ}
use srx.Limits.{Argument, whole, other, WorkloadLimits, bounded_int, wrk, iperf, scan, flood}

-- The attributes of the parsed arguments; none is None. argparse sets all that a command reads.
pub record Namespace : Type 0 where
  pub target : String
  pub path : String
  pub scheme : String
  pub qname : String
  pub app : String
  pub type : String
  pub url : Option String
  pub port : Option Argument
  pub max_ports : Argument
  pub count : Argument
  pub rate : Argument
  pub ttl : Argument
  pub connections : Argument
  pub threads : Argument
  pub duration : Argument
  pub parallel : Argument
  pub max_bytes : Argument
  pub timeout : Argument

-- What the code reads of the result of `urlsplit`; reading the port may raise.
pub record Split : Type 0 where
  pub scheme : String
  pub hostname : Option String
  pub port : Result (Option ℕ)

-- `command` is what the name of the function has behind `do_`; all functions of the suite have such a name.
pub record Workload : Type 0 where
  pub name : String
  pub command : String
  pub args : Namespace

done : Result ℕ → Result (Unit {0})
done (ok n) = ok tt
done (err e) = err e

port_or : String → Option ℕ → ℕ
port_or scheme (some p) = p
port_or scheme none = if scheme == "https" then 443 else 80

has_host : Option String → Bool
has_host none = false
has_host (some h) = not (h == "")

-- `LoadGenerator._http_port`
unfoldable pub http_port : (String → Result Split) → String → Result ℕ
unfolding port_or has_host
http_port urlsplit url = do
  parsed ← urlsplit url
  _ ←
      guard ((parsed.scheme == "http" || parsed.scheme == "https") && has_host parsed.hostname)
        value_error
  given ← parsed.port
  bounded_int (whole (pos (port_or parsed.scheme given))) 65535 1

-- `a.url or f"http://{a.target}/"`
unfoldable pub wrk_url : Namespace → String
wrk_url a = elim a.url [
  | none ↦ append "http://" (append a.target "/")
  | some u ↦ if u == "" then append "http://" (append a.target "/") else u
]

-- A port that is None fails the range check.
unfoldable pub port_argument : Option Argument → Argument
port_argument none = other
port_argument (some p) = p

module _ (urlsplit : String → Result Split) (target_url : Namespace → Result (Unit {0})) where
  check_port : String → Namespace → Option Argument → Result (Unit {0})
  unfolding done
  check_port command a none = ok tt
  check_port command a (some p) =
      done (bounded_int p 65535 (if command == "flood" && a.type == "icmp" then 0 else 1))

  -- The checks of the single commands.
  by_command : WorkloadLimits → Namespace → String → Result (Unit {0})
  unfolding done
  by_command l a command =
      if command == "crawl"
      then (done (bounded_int a.max_bytes 4194304 1)
          >> (done (bounded_int a.timeout 30 1) >> target_url a))
      else if command == "all"
      then done (bounded_int a.duration l.max_duration_s 1)
      else if command == "scan"
      then scan l a.max_ports
      else if command == "flood"
      then flood l a.type (port_argument a.port) a.count a.rate
      else if command == "frag"
      then done (bounded_int a.count l.max_fragments 1)
      else if command == "ttl"
      then done (bounded_int a.ttl 255 1)
      else if command == "wrk"
      then (wrk l a.connections a.threads a.duration >> done (http_port urlsplit (wrk_url a)))
      else if command == "iperf"
      then iperf l a.duration a.parallel (port_argument a.port)
      else ok tt

  unfoldable pub validate_args : WorkloadLimits → Namespace → String → Result (Unit {0})
  unfolding check_port by_command
  validate_args l a command = check_port command a a.port >> by_command l a command

  unfoldable pub validate_all : WorkloadLimits → List Workload → Result (Unit {0})
  validate_all l [] = ok tt
  validate_all l (w ∷ ws) = validate_args l w.args w.command >> validate_all l ws
