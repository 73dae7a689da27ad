-- ===== src/Workload/Suite.antt =====
-- `build_all_workloads` of deploy/srx_workload.py, and what its checks ask for.
use srx.Prelude.{
  ℕ, ◌≤◌, ◌≡◌, refl, Bool, true, false, none, some, String, List, [], ◌∷◌, ◌++◌, map, length,
  contains, eq_string, Result, ok, ◌>>=◌, arith, if◌then◌else◌,
}
use Prim.Native.String.{◌++◌ as append}
use srx.Prelude.Int.{pos}
use srx.Limits.{
  Argument, whole, WorkloadLimits, default_limits, bounded_int, wrk, iperf, scan, flood,
  interval_us,
}
use srx.Workload.{
  Namespace, Split, Workload, done, http_port, wrk_url, port_argument, check_port, by_command,
  validate_args, validate_all,
}

abbrev pub lit : ℕ → Argument
lit n = whole (pos n)

abbrev pub scans : Namespace → List String → List Workload
scans a [] = []
scans a (t ∷ types) =
    record {
      name = append "scan-" t;
      command = "scan";
      args = record a { type = t; max_ports = lit 1024 };
    }
    ∷ scans a types

abbrev pub floods : Namespace → List (String × ℕ) → List Workload
floods a [] = []
floods a ((t, port) ∷ types) =
    record {
      name = append "flood-" t;
      command = "flood";
      args = record a { type = t; port = some (lit port); count = lit 2000; rate = lit 500 };
    }
    ∷ floods a types

-- The list that `build_all_workloads` checks.
unfoldable pub suite : Namespace → List Workload
suite a =
    record { name = "http"; command = "http"; args = record a { path = "/"; port = some (lit 80) } }
    ∷ record { name = "dns"; command = "dns"; args = record a { qname = "probe.lab" } }
    ∷ record {
      name = "handshake-ftp";
      command = "handshake";
      args = record a { port = some (lit 21); app = "FTP" };
    }
    ∷ record { name = "eicar"; command = "eicar"; args = record a { port = some (lit 80) } }
    ∷ record { name = "gtube"; command = "gtube"; args = record a { port = some (lit 80) } }
    ∷ (scans a ("syn" ∷ "xmas" ∷ "fin" ∷ [])
        ++ (floods a (("syn", 80) ∷ ("icmp", 0) ∷ ("udp", 53) ∷ [])
            ++ (record {
              name = "malformed";
              command = "malformed";
              args = record a { port = some (lit 80) };
            }
                ∷ record {
                  name = "bad-checksum";
                  command = "badcsum";
                  args = record a { port = some (lit 80) };
                }
                ∷ record {
                  name = "tiny-ttl";
                  command = "ttl";
                  args = record a { port = some (lit 80); ttl = lit 1 };
                }
                ∷ record {
                  name = "fragments";
                  command = "frag";
                  args = record a { port = some (lit 80); count = lit 8 };
                }
                ∷ record {
                  name = "denied-port";
                  command = "deny";
                  args = record a { port = some (lit 9) };
                }
                ∷ record {
                  name = "wrk";
                  command = "wrk";
                  args = record a { url = none; connections = lit 100; threads = lit 4 };
                }
                ∷ record {
                  name = "iperf3";
                  command = "iperf";
                  args = record a { port = some (lit 5201); parallel = lit 4 };
                }
                ∷ [])))

-- No two names are the same.
abbrev pub distinct : List String → Bool
distinct [] = true
distinct (n ∷ names) = if contains names n then false else distinct names

module _ (urlsplit : String → Result Split) (target_url : Namespace → Result (Unit {0})) where
  unfoldable pub build_all_workloads : WorkloadLimits → Namespace → Result (List Workload)
  build_all_workloads l a = do
    n ← bounded_int (lit (length (suite a))) l.max_workloads 1
    _ ← validate_all urlsplit target_url l (suite a)
    ok (suite a)

  module _ (a : Namespace) (d n : ℕ) (whole_d : a.duration ≡ lit d) (low : 1 ≤ d)
      (high : d ≤ 300) where
    wrk_passes : wrk default_limits (lit 100) (lit 4) a.duration ≡ ok tt
    unfolding wrk bounded_int
    wrk_passes = rw whole_d (ground arith)

    iperf_passes : iperf default_limits a.duration (lit 4) (lit 5201) ≡ ok tt
    unfolding iperf bounded_int
    iperf_passes = rw whole_d (ground arith)

    -- The suite passes its own checks.
    pub suite_passes :
        a.port ≡ none
        → http_port urlsplit (append "http://" (append a.target "/")) ≡ ok n
        → validate_all urlsplit target_url default_limits (suite a) ≡ ok tt
    unfolding validate_all validate_args check_port by_command suite done bounded_int scan flood
        contains interval_us port_argument
    suite_passes no_port web =
        rw (no_port, wrk_passes, iperf_passes) (unfold wrk_url in rw web refl)

  -- If the duration is from 1 to 300 seconds and the target makes a URL with a port, `all` with the
  -- default limits builds 18 workloads with 18 names, each of which passes its own checks.
  pub build_all_workloads_lem :
      (a : Namespace) (d n : ℕ)
      → a.duration ≡ lit d
      → 1 ≤ d
      → d ≤ 300
      → a.port ≡ none
      → http_port urlsplit (append "http://" (append a.target "/")) ≡ ok n
      → (build_all_workloads default_limits a ≡ ok (suite a))
        × (length (suite a) ≡ 18)
        × (distinct (map (λ w. w.name) (suite a)) ≡ true)
  unfolding build_all_workloads suite bounded_int contains
  build_all_workloads_lem a d n whole_d low high no_port web =
      (rw (suite_passes a d n whole_d low high no_port web) refl, refl, refl)
