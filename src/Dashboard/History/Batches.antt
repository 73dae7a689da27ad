-- ===== src/Dashboard/History/Batches.antt =====
-- From the output of `all` to the history: every result that was printed is read, and the counts of an
-- entry are those of its results.
use srx.Prelude.{
  ℕ, ◌≡◌, ◌≢◌, refl, sym, ap, ◌∙◌, inl, inr, Bool, true, false, String, List, [], ◌∷◌, ◌++◌, map,
  all, All, Bool-cases, eq_string, ◌==◌, arith,
}
use srx.Prelude.Text.{codes, occurs}
use srx.Workload.Outcomes.{WorkloadResult, succeeded}
use srx.Workload.Summary.{
  hdr, detail, status_text, int_text, tenths_text, summary_line, print_summary,
}
use srx.Prelude.Text.{is_white}
use srx.Dashboard.History.{
  Text, strip, strip_right, parse_status, parse_lines, parse_batch_from_lines, summary_header,
}
use srx.Dashboard.History.RoundTrip.{IsPlain, recorded, parse_line-summary_line}

all-append_right : (p : ℕ → Bool) (s t : Text) → all p (s ++ t) ≡ true → all p t ≡ true
unfolding all
all-append_right p [] t h = h
all-append_right p (c ∷ s) t h = all-append_right p s t (ground arith)

strip_right-white : (s : Text) → all is_white s ≡ true → strip_right s ≡ []
unfolding strip_right
strip_right-white [] h = refl
strip_right-white (c ∷ s) h = rw h refl

-- Text with something in it and no blanks at its end.
abbrev IsTrimmed : Text → Type 0
IsTrimmed t = (t ≢ []) × (strip_right t ≡ t)

-- What stands in front of such a text does not change that.
append-IsTrimmed : (s t : Text) → IsTrimmed t → IsTrimmed (s ++ t)
unfolding strip_right
append-IsTrimmed [] t h = h
append-IsTrimmed (d ∷ s) t h = (
  λ e. cc e,
  elim (Bool-cases (all is_white (d ∷ s ++ t))) [
    | inl e ↦ absurd (h.0 (sym h.1 ∙ strip_right-white t (all-append_right is_white (d ∷ s) t e)))
    | inr e ↦ rw e (ap (λ l. d ∷ l) (append-IsTrimmed s t h).1)
  ],
)

strip_bracket : (s : Text) → strip (b'[' ∷ s) ≡ strip_right (b'[' ∷ s)
unfolding strip is_white
strip_bracket s = refl

detail-IsTrimmed :
    (error : String)
    → strip_right (codes error) ≡ codes error
    → IsTrimmed (codes "not_evaluated" ++ detail error)
unfolding detail all
detail-IsTrimmed error h = elim (Bool-cases (error == "")) [
  | inl e ↦ rw e (λ q. cc q, unfold strip_right is_white in refl)
  | inr e ↦ rw e (append-IsTrimmed (codes "not_evaluated - ") (codes error) (given error e, h))
]
  where
    given : (s : String) → (s == "") ≡ false → codes s ≢ []
    given String.[] q e = cc q
    given (String.◌∷◌ c s) q e = cc

module _ (r : WorkloadResult) (elapsed : ℕ) (v : IsPlain r) where
  strip-summary_line : strip (summary_line (r, elapsed)) ≡ summary_line (r, elapsed)
  unfolding summary_line
  strip-summary_line =
      strip_bracket _
      ∙ (append-IsTrimmed (codes "[") _ (
          append-IsTrimmed (status_text (succeeded r)) _ (
            append-IsTrimmed (codes "] ") _ (
              append-IsTrimmed (codes r.name) _ (
                append-IsTrimmed (codes ": rc=") _ (
                  append-IsTrimmed (int_text r.returncode) _ (
                    append-IsTrimmed (codes " elapsed=") _ (
                      append-IsTrimmed (tenths_text elapsed) _ (
                        append-IsTrimmed (codes "s detection=") _
                          (detail-IsTrimmed r.error v.error_trimmed)))))))))).1

-- The header is looked for in every line.
abbrev pub NoHeader : Text → Type 0
NoHeader line = occurs summary_header line ≡ false

parse_summary :
    (rs : List (WorkloadResult × ℕ))
    → All (λ r. IsPlain r.0 × NoHeader (summary_line r)) rs
    → parse_lines true (map summary_line rs) ≡ map recorded rs
unfolding parse_lines
parse_summary [] h = refl
parse_summary ((r, elapsed) ∷ rs) h =
    rw
      (
        h.0.1,
        strip-summary_line r elapsed h.0.0,
        parse_line-summary_line r elapsed h.0.0,
        parse_summary rs h.1,
      )
      refl

parse_before :
    (before rest : List Text)
    → All NoHeader before
    → parse_lines false (before ++ rest) ≡ parse_lines false rest
unfolding parse_lines
parse_before [] rest h = refl
parse_before (l ∷ before) rest h = rw h.0 (parse_before before rest h.1)

parse_hdr :
    (rest : List Text) → parse_lines false (hdr summary_header ++ rest) ≡ parse_lines true rest
unfolding parse_lines hdr parse_status is_white all
parse_hdr rest = refl

-- After any lines without the header, the results that `all` prints are read back in their order: each
-- with its name, its exit code, its elapsed time and its error, and as a success exactly if its exit code
-- is zero. Each name has no colon and no blanks at its ends, each error is one line with no blanks at its
-- end, and no line of a result holds the header.
pub parse_batch_from_lines-print_summary :
    (before : List Text) (rs : List (WorkloadResult × ℕ))
    → All NoHeader before
    → All (λ r. IsPlain r.0 × NoHeader (summary_line r)) rs
    → parse_batch_from_lines (before ++ print_summary rs) ≡ map recorded rs
unfolding parse_batch_from_lines print_summary
parse_batch_from_lines-print_summary before rs h k =
    parse_before before (hdr summary_header ++ map summary_line rs) h
    ∙ (parse_hdr (map summary_line rs) ∙ parse_summary rs k)
