-- ===== src/Workload/Summary.antt =====
-- The lines that `do_all` of deploy/srx_workload.py prints for its results, as code points. An elapsed
-- time is given in tenths of a second, as `:.1f` rounds it; the detection status is the default.
use srx.Prelude.{
  ℕ, suc, ◌/◌, ◌%◌, Bool, List, String, [], ◌∷◌, ◌++◌, map, eq_string, ◌==◌, replicate,
  if◌then◌else◌,
}
use srx.Prelude.Int.{ℤ, pos, negsuc}
use srx.Prelude.Text.{codes, decimal}
use srx.Workload.Outcomes.{WorkloadResult, succeeded}

unfoldable pub int_text : ℤ → List ℕ
int_text (pos n) = codes (decimal n)
int_text (negsuc n) = b'-' ∷ codes (decimal (suc n))

-- `f"{elapsed:.1f}"`
unfoldable pub tenths_text : ℕ → List ℕ
tenths_text t = codes (decimal (t / 10)) ++ (b'.' ∷ codes (decimal (t % 10)))

-- `execution_status.upper()`
unfoldable pub status_text : Bool → List ℕ
status_text ok_status = if ok_status then codes "SUCCEEDED" else codes "FAILED"

unfoldable pub detail : String → List ℕ
detail error = if error == "" then [] else codes " - " ++ codes error

-- The line of a result and its elapsed time.
unfoldable pub summary_line : WorkloadResult × ℕ → List ℕ
unfolding int_text tenths_text status_text detail
summary_line (r, elapsed) =
    codes "["
    ++ (status_text (succeeded r)
        ++ (codes "] "
            ++ (codes r.name
                ++ (codes ": rc="
                    ++ (int_text r.returncode
                        ++ (codes " elapsed="
                            ++ (tenths_text elapsed
                                ++ (codes "s detection="
                                    ++ (codes "not_evaluated" ++ detail r.error)))))))))

abbrev pub rule : List ℕ
rule = replicate 70 b'='

-- `hdr(title)`, line by line
unfoldable pub hdr : List ℕ → List (List ℕ)
hdr title = [] ∷ rule ∷ title ∷ rule ∷ []

-- The summary of the results in the order in which they are given.
unfoldable pub print_summary : List (WorkloadResult × ℕ) → List (List ℕ)
unfolding hdr summary_line
print_summary results = hdr (codes "WORKLOAD SUMMARY") ++ map summary_line results
