-- ===== src/Dashboard/Catalog.antt =====
-- `WORKLOADS` of srx-dashboard/dashboard.py, and the `limits` of its `validate_request`.
use srx.Prelude.{ℕ, Bool, true, false, String, List, [], ◌∷◌, eq_string, ◌==◌, if◌then◌else◌}
use srx.Dashboard.Run.{Param, int, str}

pub data Kind : Type 0 where
  int_kind str_kind : Kind

-- `(name, kind, default, choices)`; no choices is the empty list.
pub record ParamSpec : Type 0 where
  pub name : String
  pub kind : Kind
  pub default : Param
  pub choices : List String

pub record WorkloadSpec : Type 0 where
  pub root : Bool
  pub aggressive : Bool
  pub params : List ParamSpec

abbrev pub number_param : String → ℕ → ParamSpec
number_param name n = record { name = name; kind = int_kind; default = int n; choices = [] }

abbrev pub text_param : String → String → List String → ParamSpec
text_param name s choices = record {
  name = name;
  kind = str_kind;
  default = str s;
  choices = choices;
}

abbrev plain : List ParamSpec → WorkloadSpec
plain params = record { root = false; aggressive = false; params = params }

abbrev attack : List ParamSpec → WorkloadSpec
attack params = record { root = true; aggressive = true; params = params }

abbrev pub workloads : List (String × WorkloadSpec)
workloads =
    ("http", plain (number_param "port" 80 ∷ text_param "path" "/" [] ∷ []))
    ∷ (
      "crawl",
      plain (
          text_param "path" "/" []
          ∷ number_param "port" 80
          ∷ text_param "scheme" "http" ("http" ∷ "https" ∷ [])
          ∷ number_param "max-bytes" 1048576
          ∷ number_param "timeout" 10
          ∷ []),
    )
    ∷ ("dns", plain (text_param "qname" "probe.lab" [] ∷ []))
    ∷ (
      "handshake",
      plain (number_param "port" 22 ∷ text_param "app" "SSH" ("SSH" ∷ "FTP" ∷ "HTTP" ∷ []) ∷ []),
    )
    ∷ ("eicar", plain (number_param "port" 80 ∷ []))
    ∷ ("gtube", plain (number_param "port" 80 ∷ []))
    ∷ (
      "scan",
      attack (
          text_param "type" "syn" ("syn" ∷ "xmas" ∷ "fin" ∷ "null" ∷ "ack" ∷ [])
          ∷ number_param "max-ports" 1024
          ∷ []),
    )
    ∷ (
      "flood",
      attack (
          text_param "type" "syn" ("syn" ∷ "icmp" ∷ "udp" ∷ [])
          ∷ number_param "port" 80
          ∷ number_param "count" 2000
          ∷ number_param "rate" 500
          ∷ []),
    )
    ∷ ("malformed", attack (number_param "port" 80 ∷ []))
    ∷ ("badcsum", attack (number_param "port" 80 ∷ []))
    ∷ ("ttl", attack (number_param "port" 80 ∷ number_param "ttl" 1 ∷ []))
    ∷ ("frag", attack (number_param "port" 80 ∷ number_param "count" 8 ∷ []))
    ∷ ("deny", attack (number_param "port" 9 ∷ []))
    ∷ (
      "wrk",
      plain (
          number_param "connections" 100
          ∷ number_param "threads" 4
          ∷ number_param "duration" 60
          ∷ []),
    )
    ∷ (
      "iperf",
      plain
          (number_param "port" 5201 ∷ number_param "parallel" 4 ∷ number_param "duration" 60 ∷ []),
    )
    ∷ ("all", attack (number_param "duration" 60 ∷ []))
    ∷ []

-- The ceiling of a numeric parameter, `limits[name]`.
unfoldable pub limit_of : String → String → ℕ
limit_of workload name =
    if name == "port"
    then 65535
    else if name == "max-ports"
    then 4096
    else if name == "ttl"
    then 255
    else if name == "duration"
    then 300
    else if name == "count"
    then (if workload == "frag" then 64 else 10000)
    else if name == "rate"
    then 1000
    else if name == "connections"
    then 10000
    else if name == "threads"
    then 64
    else if name == "parallel"
    then 32
    else if name == "max-bytes"
    then 4194304
    else 30
