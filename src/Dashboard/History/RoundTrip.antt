-- ===== src/Dashboard/History/RoundTrip.antt =====
-- The lines that the CLI prints for its results are read back by the dashboard.
use srx.Prelude.{
  ℕ, zero, suc, ◌/◌, ◌%◌, ◌≡◌, ◌≢◌, refl, ap, ◌∙◌, inl, inr, Bool, true, false, not, ◌&&◌, some,
  String, [], ◌∷◌, ◌++◌, all, nat_eq, nat_eq_iff, Bool-cases, eq_string, ◌==◌, arith,
}
use mathlib.Core.List.{append_assoc}
use srx.Prelude.Int.{ℤ, pos, negsuc, eq_ℤ}
use srx.Prelude.Text.{codes, is_digit, decimal}
use srx.Prelude.Decimal.{digit_first, decimal-digit_first, all-decimal, digits_value-decimal}
use srx.Workload.Outcomes.{WorkloadResult, succeeded, is_zero}
use srx.Workload.Summary.{int_text, tenths_text, status_text, detail, summary_line}
use srx.Prelude.Text.{is_white}
use srx.Dashboard.History.{
  Text, strip, strip_right, expect, span, at_least_one, span1, ◌>>=◌, parse_status, natural,
  parse_int, parse_fraction, skip_detection, parse_error, parse_line, Recorded,
}

pub expect-append : (l s : Text) → expect l (l ++ s) ≡ some s
unfolding expect
expect-append [] s = refl
expect-append (c ∷ l) s = rw ((nat_eq_iff c c).1 refl) (expect-append l s)

-- A run of characters of a class ends where one of another class stands.
span-append :
    (p : ℕ → Bool) (front back : Text) (c : ℕ)
    → all p front ≡ true
    → p c ≡ false
    → span p (front ++ c ∷ back) ≡ (front, c ∷ back)
unfolding span all
span-append p [] back c h q = rw q refl
span-append p (d ∷ front) back c h q = elim (Bool-cases (p d)) [
  | inl e ↦ rw (span-append p front back c (rw e at h) q, e) refl
  | inr e ↦ absurd (cc (rw e at h))
]

span-end : (p : ℕ → Bool) (s : Text) → all p s ≡ true → span p s ≡ (s, [])
unfolding span all
span-end p [] h = refl
span-end p (d ∷ s) h = elim (Bool-cases (p d)) [
  | inl e ↦ rw (span-end p s (rw e at h), e) refl
  | inr e ↦ absurd (cc (rw e at h))
]

pub span1-append :
    (p : ℕ → Bool) (front back : Text) (c : ℕ)
    → front ≢ []
    → all p front ≡ true
    → p c ≡ false
    → span1 p (front ++ c ∷ back) ≡ some (front, c ∷ back)
unfolding span1
span1-append p [] back c n h q = absurd (n refl)
span1-append p (d ∷ front) back c n h q = ap at_least_one (span-append p (d ∷ front) back c h q)

span1-end : (p : ℕ → Bool) (s : Text) → s ≢ [] → all p s ≡ true → span1 p s ≡ some (s, [])
unfolding span1
span1-end p [] n h = absurd (n refl)
span1-end p (d ∷ s) n h = ap at_least_one (span-end p (d ∷ s) h)

decimal-ne-nil : (n : ℕ) → codes (decimal n) ≢ []
decimal-ne-nil n e = let h : digit_first [] ≡ true = rw e at (decimal-digit_first n) in cc h

natural-decimal :
    (n c : ℕ) (rest : Text)
    → is_digit c ≡ false
    → natural (codes (decimal n) ++ c ∷ rest) ≡ some (n, c ∷ rest)
unfolding natural
natural-decimal n c rest h =
    rw
      (
        span1-append is_digit (codes (decimal n)) rest c (decimal-ne-nil n) (all-decimal n) h,
        digits_value-decimal n,
      )
      refl

-- A text that begins with a digit has no sign.
parse_int_digit :
    (s : Text) → digit_first s ≡ true → parse_int s ≡ (natural s >>= λ n. some (pos n.0, n.1))
unfolding parse_int
parse_int_digit [] h = cc
parse_int_digit (c ∷ s) h = ground arith

digit_first-append : (s t : Text) → digit_first s ≡ true → digit_first (s ++ t) ≡ true
digit_first-append [] t h = cc
digit_first-append (c ∷ s) t h = h

pub parse_int-int_text :
    (z : ℤ) (c : ℕ) (rest : Text)
    → is_digit c ≡ false
    → parse_int (int_text z ++ c ∷ rest) ≡ some (z, c ∷ rest)
unfolding int_text parse_int
parse_int-int_text (pos n) c rest h =
    parse_int_digit (codes (decimal n) ++ c ∷ rest)
      (digit_first-append (codes (decimal n)) (c ∷ rest) (decimal-digit_first n))
    ∙ rw (natural-decimal n c rest h) refl
parse_int-int_text (negsuc n) c rest h = rw (parse_int, natural-decimal (suc n) c rest h) refl

-- What a result must be to be read back: a name with no colon and no blanks at its ends, and an error
-- text of one line with no blanks at its end.
pub record IsPlain (r : WorkloadResult) : Type 0 where
  pub named : codes r.name ≢ []
  pub no_colon : all (λ c. not (nat_eq c b':')) (codes r.name) ≡ true
  pub name_trimmed : strip (codes r.name) ≡ codes r.name
  pub one_line : all (λ c. not (nat_eq c 10)) (codes r.error) ≡ true
  pub error_trimmed : strip_right (codes r.error) ≡ codes r.error

parse_status-status_text :
    (b : Bool) (rest : Text)
    → parse_status (codes "[" ++ (status_text b ++ (codes "] " ++ rest))) ≡ some (b, rest)
unfolding parse_status status_text
parse_status-status_text true rest = refl
parse_status-status_text false rest = refl

error_given : (s : String) → (s == "") ≡ false → codes s ≢ []
error_given String.[] h e = cc h
error_given (String.◌∷◌ c s) h e = cc

parse_error-given :
    (s : Text)
    → s ≢ []
    → all (λ c. not (nat_eq c 10)) s ≡ true
    → parse_error (codes " - " ++ s) ≡ some s
unfolding parse_error
parse_error-given [] n h = absurd (n refl)
parse_error-given (c ∷ s) n h = rw h (ground arith)

error_empty : (s : String) → (s == "") ≡ true → codes s ≡ []
error_empty s h = rw ((eq_string.beq_iff s "").0 h) refl

skip_detection-blank :
    (s : Text) → skip_detection (codes " detection=" ++ (codes "not_evaluated" ++ 32 ∷ s)) ≡ 32 ∷ s
unfolding skip_detection is_white
skip_detection-blank s = refl

skip_detection-end : skip_detection (codes " detection=" ++ codes "not_evaluated") ≡ []
unfolding skip_detection is_white
skip_detection-end = refl

-- The last two groups.
tail-detail :
    (error : String)
    → all (λ c. not (nat_eq c 10)) (codes error) ≡ true
    → parse_error (skip_detection (codes " detection=" ++ (codes "not_evaluated" ++ detail error)))
      ≡ some (codes error)
unfolding detail
tail-detail error h = elim (Bool-cases (error == "")) [
  | inl e ↦ rw (e, error_empty error e, skip_detection-end) (unfold parse_error in refl)
  | inr e ↦
      rw (e, skip_detection-blank (45 ∷ 32 ∷ codes error))
        (parse_error-given (codes error) (error_given error e) h)
]

parse_fraction-tenths :
    (n c : ℕ) (rest : Text)
    → is_digit c ≡ false
    → parse_fraction (b'.' ∷ codes (decimal n) ++ c ∷ rest) ≡ (b'.' ∷ codes (decimal n), c ∷ rest)
unfolding parse_fraction
parse_fraction-tenths n c rest h =
    rw (span1-append is_digit (codes (decimal n)) rest c (decimal-ne-nil n) (all-decimal n) h) refl

-- What the dashboard keeps of a result and its elapsed time.
abbrev pub recorded : WorkloadResult × ℕ → Recorded
recorded (r, elapsed) = record {
  name = codes r.name;
  rc = r.returncode;
  elapsed = tenths_text elapsed;
  ok_status = succeeded r;
  error = codes r.error;
}

succeeded-zero : (r : WorkloadResult) → (succeeded r && r.returncode == pos 0) ≡ succeeded r
unfolding succeeded
succeeded-zero r = sign r.returncode
  where
    sign : (z : ℤ) → (is_zero z && z == pos 0) ≡ is_zero z
    sign (pos zero) = refl
    sign (pos (suc n)) = refl
    sign (negsuc n) = refl

module _ (r : WorkloadResult) (elapsed : ℕ) (v : IsPlain r) where
  abbrev closing : Text
  closing = codes "not_evaluated" ++ detail r.error

  abbrev behind_time : Text
  behind_time = codes "s detection=" ++ closing

  abbrev behind_rc : Text
  behind_rc = codes " elapsed=" ++ (tenths_text elapsed ++ behind_time)

  abbrev behind_name : Text
  behind_name = codes ": rc=" ++ (int_text r.returncode ++ behind_rc)

  time_read :
      span1 is_digit (tenths_text elapsed ++ behind_time)
      ≡ some (codes (decimal (elapsed / 10)), b'.' ∷ codes (decimal (elapsed % 10)) ++ behind_time)
  unfolding tenths_text
  time_read =
      ap (span1 is_digit) (
        append_assoc (codes (decimal (elapsed / 10))) (b'.' ∷ codes (decimal (elapsed % 10)))
          behind_time)
      ∙ span1-append is_digit (codes (decimal (elapsed / 10)))
          (codes (decimal (elapsed % 10)) ++ behind_time) b'.' (decimal-ne-nil (elapsed / 10))
          (all-decimal (elapsed / 10)) refl

  pub parse_line-summary_line :
      parse_line (summary_line (r, elapsed)) ≡ some (recorded (r, elapsed))
  unfolding parse_line summary_line
  parse_line-summary_line =
      rw
        (
          parse_status-status_text (succeeded r) (codes r.name ++ behind_name),
          span1-append (λ c. not (nat_eq c b':')) (codes r.name)
              (codes " rc=" ++ (int_text r.returncode ++ behind_rc)) b':' v.named v.no_colon refl,
          expect-append (codes ": rc=") (int_text r.returncode ++ behind_rc),
          parse_int-int_text r.returncode 32
              (codes "elapsed=" ++ (tenths_text elapsed ++ behind_time)) refl,
          expect-append (codes " elapsed=") (tenths_text elapsed ++ behind_time),
          time_read,
          parse_fraction-tenths (elapsed % 10) b's' (codes " detection=" ++ closing) refl,
          expect-append (codes "s") (codes " detection=" ++ closing),
          tail-detail r.error v.one_line,
          v.name_trimmed,
          succeeded-zero r,
        )
        (unfold tenths_text in refl)
