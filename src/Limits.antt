-- ===== src/Limits.antt =====
-- generators/load_gen.py: `bounded_int` and `WorkloadLimits`; generators/scan_gen.py: the argument
-- builders for nmap and hping3. The search for a binary on the PATH is an argument, `which`.
pub mod Pacing
mod Examples
use srx.Prelude.{
  ℕ, zero, suc, ◌+◌, ◌-◌, ◌*◌, ◌/◌, ◌<◌, Bool, true, false, ◌&&◌, Option, none, some, String, List,
  [], ◌∷◌, ◌++◌, min, leb, ltb, contains, lookup, eq_string, ◌==◌, Result, ok, err, value_error,
  os_error, ◌>>=◌, ◌>>◌, guard, if◌then◌else◌,
}
use Prim.Native.String.{◌++◌ as append}
use srx.Prelude.Int.{ℤ, pos, negsuc}
use srx.Prelude.Text.{lower, decimal}

-- An argument of a caller: an int, or a value of any other type, bool and float included.
pub data Argument : Type 0 where
  whole : ℤ → Argument
  other : Argument

unfoldable pub bounded_int : Argument → ℕ → ℕ → Result ℕ
bounded_int (whole (pos n)) maximum minimum =
    if leb minimum n && leb n maximum then ok n else err value_error
bounded_int (whole (negsuc n)) maximum minimum = err value_error
bounded_int other maximum minimum = err value_error

pub record WorkloadLimits : Type 0 where
  pub max_packets : ℕ
  pub max_rate_pps : ℕ
  pub max_ports : ℕ
  pub max_duration_s : ℕ
  pub max_connections : ℕ
  pub max_threads : ℕ
  pub max_parallel : ℕ
  pub max_fragments : ℕ
  pub max_workloads : ℕ

abbrev pub default_limits : WorkloadLimits
default_limits = record {
  max_packets = 10000;
  max_rate_pps = 1000;
  max_ports = 4096;
  max_duration_s = 300;
  max_connections = 10000;
  max_threads = 64;
  max_parallel = 32;
  max_fragments = 64;
  max_workloads = 32;
}

-- A ceiling is an int above zero.
positive : Argument → Result ℕ
positive (whole (pos n)) = if ltb 0 n then ok n else err value_error
positive (whole (negsuc n)) = err value_error
positive other = err value_error

-- `WorkloadLimits(...)` with the checks of `__post_init__`, in the order of the fields.
pub new_limits :
    Argument
    → Argument
    → Argument
    → Argument
    → Argument
    → Argument
    → Argument
    → Argument
    → Argument
    → Result WorkloadLimits
unfolding positive bounded_int
new_limits packets rate ports duration connections threads parallel fragments workloads = do
  max_packets ← positive packets
  max_rate_pps ← positive rate
  max_ports ← positive ports
  max_duration_s ← positive duration
  max_connections ← positive connections
  max_threads ← positive threads
  max_parallel ← positive parallel
  max_fragments ← positive fragments
  max_workloads ← positive workloads
  _ ← bounded_int (whole (pos max_ports)) 65535 1
  ok (record {
    max_packets = max_packets;
    max_rate_pps = max_rate_pps;
    max_ports = max_ports;
    max_duration_s = max_duration_s;
    max_connections = max_connections;
    max_threads = max_threads;
    max_parallel = max_parallel;
    max_fragments = max_fragments;
    max_workloads = max_workloads;
  })

unfoldable pub wrk : WorkloadLimits → Argument → Argument → Argument → Result (Unit {0})
unfolding bounded_int
wrk l connections threads duration = do
  c ← bounded_int connections l.max_connections 1
  t ← bounded_int threads (min l.max_threads c) 1
  d ← bounded_int duration l.max_duration_s 1
  ok tt

unfoldable pub iperf : WorkloadLimits → Argument → Argument → Argument → Result (Unit {0})
unfolding bounded_int
iperf l duration parallel port = do
  d ← bounded_int duration l.max_duration_s 1
  p ← bounded_int parallel l.max_parallel 1
  n ← bounded_int port 65535 1
  ok tt

unfoldable pub scan : WorkloadLimits → Argument → Result (Unit {0})
unfolding bounded_int
scan l max_ports = do n ← bounded_int max_ports l.max_ports 1; ok tt

abbrev pub flood_types : List String
flood_types = "syn" ∷ "icmp" ∷ "udp" ∷ []

-- The microseconds between two packets, rounded up.
unfoldable pub interval_us : ℕ → ℕ
interval_us rate = (1000000 + rate - 1) / rate

unfoldable pub flood : WorkloadLimits → String → Argument → Argument → Argument → Result (Unit {0})
unfolding bounded_int
flood l flood_type port count rate_pps = do
  guard (contains flood_types flood_type) value_error
  p ← bounded_int port 65535 (if flood_type == "icmp" then 0 else 1)
  n ← bounded_int count l.max_packets 1
  r ← bounded_int rate_pps l.max_rate_pps 1
  guard (leb (n * interval_us r) (l.max_duration_s * 1000000)) value_error

-- `require_binary`, over what `shutil.which` finds.
pub require_binary : (String → Option String) → String → Result String
require_binary which name = elim (which name) [ none ↦ err os_error | some path ↦ ok path ]

abbrev pub scan_flags : List (String × String)
scan_flags =
    ("syn", "-sS") ∷ ("xmas", "-sX") ∷ ("fin", "-sF") ∷ ("null", "-sN") ∷ ("ack", "-sA") ∷ []

flag_of : Option String → Result String
flag_of none = err value_error
flag_of (some f) = ok f

pub build_nmap_cmd :
    (String → Option String) → WorkloadLimits → String → String → ℕ → Result (List String)
unfolding require_binary flag_of
build_nmap_cmd which l dst_ip scan_type max_ports = do
  scan l (whole (pos max_ports))
  f ← flag_of (lookup (lower scan_type) scan_flags)
  binary ← require_binary which "nmap"
  ok (
      binary
      ∷ f
      ∷ "-Pn"
      ∷ "-n"
      ∷ "-p"
      ∷ append "1-" (decimal max_ports)
      ∷ "--max-retries"
      ∷ "1"
      ∷ "--max-rate"
      ∷ decimal l.max_rate_pps
      ∷ "--host-timeout"
      ∷ append (decimal l.max_duration_s) "s"
      ∷ dst_ip
      ∷ [])

-- The arguments that depend on the kind of flood; `flood` has refused every other kind.
flood_args : String → ℕ → List String
flood_args kind dst_port =
    if kind == "syn"
    then "-S" ∷ "-p" ∷ decimal dst_port ∷ []
    else if kind == "icmp"
    then "--icmp" ∷ []
    else "--udp" ∷ "-p" ∷ decimal dst_port ∷ []

pub build_hping3_flood_cmd :
    (String → Option String) → WorkloadLimits → String → String → ℕ → ℕ → ℕ → Result (List String)
unfolding require_binary flood_args
build_hping3_flood_cmd which l dst_ip flood_type dst_port count rate_pps = do
  let kind = lower flood_type
  flood l kind (whole (pos dst_port)) (whole (pos count)) (whole (pos rate_pps))
  binary ← require_binary which "hping3"
  ok (
      binary
        ∷ "-c"
        ∷ decimal count
        ∷ "-i"
        ∷ append "u" (decimal (interval_us rate_pps))
        ∷ flood_args kind dst_port
      ++ dst_ip ∷ [])
