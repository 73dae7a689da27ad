-- ===== src/Dashboard/History/Examples.antt =====
-- The statements about the history at two results.
use srx.Prelude.{ℕ, ◌≡◌, refl, true, some, List, [], ◌∷◌, ◌++◌, map, All, all, arith}
use srx.Prelude.Int.{pos}
use srx.Prelude.Text.{codes, decimal, occurs}
use srx.Workload.Outcomes.{WorkloadResult, succeeded}
use srx.Workload.Summary.{summary_line, print_summary}
use srx.Prelude.Text.{is_white}
use srx.Dashboard.Run
use srx.Dashboard.Run.{Run}
use srx.Dashboard.History.{strip, parse_batch_from_lines}
use srx.Dashboard.History.RoundTrip.{IsPlain, recorded}
use srx.Dashboard.History.Batches.{NoHeader, parse_batch_from_lines-print_summary}
use srx.Dashboard.History.Entries.{record_all, newest, made, record_all-newest}

abbrev dns : WorkloadResult
dns = record { name = "dns"; returncode = pos 0; error = "" }

abbrev scan : WorkloadResult
scan = record { name = "scan-syn"; returncode = pos 124; error = "TimeoutExpired: scan" }

abbrev results : List (WorkloadResult × ℕ)
results = (dns, 12) ∷ (scan, 605) ∷ []

dns-IsPlain : IsPlain dns
unfolding strip is_white all
dns-IsPlain = record {
  named = λ e. cc e;
  no_colon = refl;
  name_trimmed = refl;
  one_line = refl;
  error_trimmed = refl;
}

scan-IsPlain : IsPlain scan
unfolding strip is_white all
scan-IsPlain = record {
  named = λ e. cc e;
  no_colon = refl;
  name_trimmed = refl;
  one_line = refl;
  error_trimmed = refl;
}

dns_line : NoHeader (summary_line (dns, 12))
unfolding occurs summary_line succeeded decimal
dns_line = refl

scan_line : NoHeader (summary_line (scan, 605))
unfolding occurs summary_line succeeded decimal
scan_line = refl

other_line : NoHeader (codes "HTTP 200")
unfolding occurs
other_line = refl

IsPlain-results : All (λ r. IsPlain r.0 × NoHeader (summary_line r)) results
IsPlain-results = ((dns-IsPlain, dns_line), ((scan-IsPlain, scan_line), tt))

parse_batch_from_lines-print_summary_example :
    parse_batch_from_lines ((codes "HTTP 200" ∷ []) ++ print_summary results) ≡ map recorded results
parse_batch_from_lines-print_summary_example =
    parse_batch_from_lines-print_summary (codes "HTTP 200" ∷ []) results (other_line, tt)
      IsPlain-results

abbrev ended : Run
ended = record (Run.new "a1" "all" true (some "all") 5) {
  returncode = some (pos 1);
  ended = some 9;
}

record_all-newest_example :
    record_all 1 [] ((9, ended) ∷ (20, ended) ∷ [])
    ≡ newest 1 ([] ++ map made ((9, ended) ∷ (20, ended) ∷ []))
record_all-newest_example = record_all-newest 1 ((9, ended) ∷ (20, ended) ∷ []) [] (omega arith)

abbrev printed : Run
printed = record ended {
  lines =
      "HTTP 200" ∷ "" ∷ "======================================================================"
      ∷ "WORKLOAD SUMMARY"
      ∷ "======================================================================"
      ∷ "[SUCCEEDED] dns: rc=0 elapsed=1.2s detection=not_evaluated"
      ∷ "[FAILED] scan-syn: rc=124 elapsed=60.5s detection=not_evaluated - TimeoutExpired: scan"
      ∷ [];
}
