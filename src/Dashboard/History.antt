-- ===== src/Dashboard/History.antt =====
-- The history of `all` runs in srx-dashboard/dashboard.py: `parse_batch_from_lines` with `_SUMMARY_RE`,
-- and `record_batch`. Lines are code points; `\d` is read as the ASCII digits. The text of an elapsed
-- time is kept as it stands. Whether the file is written is an argument.
pub mod RoundTrip
pub mod Batches
pub mod Entries
mod Examples
use srx.Prelude.{
  ℕ, zero, suc, ◌+◌, ◌-◌, min, max, Bool, true, false, not, ◌&&◌, ◌||◌, Option, none, some, String,
  List, [], ◌∷◌, ◌++◌, map, keep, all, nat_eq, leb, length, drop, is_some, ◌==◌, Result, ok, err,
  os_error, if◌then◌else◌,
}
use srx.Prelude.Int.{ℤ, pos, negsuc, eq_ℤ}
use srx.Prelude.Text.{codes, is_digit, occurs, digits_value}
use srx.Prelude.Text.{is_white}
use srx.Dashboard.Run.{Run, Batch}

abbrev pub Text : Type 0
Text = List ℕ

-- A parse goes on with what a part has left.
infixl 5 ◌>>=◌
abbrev pub ◌>>=◌ {ℓ κ} : {A : Type ℓ} {B : Type κ} → Option A → (A → Option B) → Option B
none >>= next = none
some a >>= next = next a

-- `s.strip()`
unfoldable pub strip_left : Text → Text
strip_left [] = []
strip_left (c ∷ s) = let rest = strip_left s in if is_white c then rest else c ∷ s

unfoldable pub strip_right : Text → Text
strip_right [] = []
strip_right (c ∷ s) = let rest = strip_right s in if all is_white (c ∷ s) then [] else c ∷ rest

unfoldable pub strip : Text → Text
unfolding strip_left strip_right
strip s = strip_right (strip_left s)

-- A literal part of the pattern: the text behind it.
unfoldable pub expect : Text → Text → Option Text
expect [] s = some s
expect (c ∷ l) [] = none
expect (c ∷ l) (d ∷ s) = if nat_eq c d then expect l s else none

unfoldable pub in_front : ℕ → Text × Text → Text × Text
in_front c (front, back) = (c ∷ front, back)

-- The longest prefix of such characters, and the rest.
unfoldable pub span : (ℕ → Bool) → Text → Text × Text
unfolding in_front
span p [] = ([], [])
span p (c ∷ s) = let more = in_front c (span p s) in if p c then more else ([], c ∷ s)

unfoldable pub at_least_one : Text × Text → Option (Text × Text)
at_least_one ([], back) = none
at_least_one (c ∷ front, back) = some (c ∷ front, back)

-- `x+` for a class of characters.
unfoldable pub span1 : (ℕ → Bool) → Text → Option (Text × Text)
unfolding span at_least_one
span1 p s = at_least_one (span p s)

unfoldable pub or_else {ℓ} : {A : Type ℓ} → Option A → Option A → Option A
or_else none other = other
or_else (some a) other = some a

unfoldable pub with_status : Bool → Option Text → Option (Bool × Text)
with_status passed none = none
with_status passed (some rest) = some (passed, rest)

-- `\[(OK|ERR|SUCCEEDED|FAILED)\] `, and whether the status is one of a success.
unfoldable pub parse_status : Text → Option (Bool × Text)
unfolding or_else with_status expect
parse_status s = or_else (with_status true (expect (codes "[OK] ") s)) (
    or_else (with_status false (expect (codes "[ERR] ") s)) (
      or_else (with_status true (expect (codes "[SUCCEEDED] ") s))
        (with_status false (expect (codes "[FAILED] ") s))))

unfoldable pub negated : ℕ → ℤ
negated zero = pos 0
negated (suc n) = negsuc n

unfoldable pub natural : Text → Option (ℕ × Text)
unfolding span1 digits_value
natural s = do d ← span1 is_digit s; some (digits_value 0 d.0, d.1)

-- `(-?\d+)`, as an integer
unfoldable pub parse_int : Text → Option (ℤ × Text)
unfolding natural negated
parse_int [] = none
parse_int (c ∷ s) =
    if nat_eq c b'-'
    then (do n ← natural s; some (negated n.0, n.1))
    else (do n ← natural (c ∷ s); some (pos n.0, n.1))

-- `(?:\.\d+)?`: the text of the group and the rest.
unfoldable pub parse_fraction : Text → Text × Text
unfolding span1
parse_fraction [] = ([], [])
parse_fraction (c ∷ s) =
    if nat_eq c b'.'
    then (elim (span1 is_digit s) [ none ↦ ([], c ∷ s) | some (d, rest) ↦ (c ∷ d, rest) ])
    else ([], c ∷ s)

unfoldable pub is_black : ℕ → Bool
is_black c = not (is_white c)

-- `(?: detection=\S+)?`
unfoldable pub skip_detection : Text → Text
unfolding expect span1 is_black
skip_detection s = elim (expect (codes " detection=") s) [
  | none ↦ s
  | some rest ↦ elim (span1 is_black rest) [ none ↦ s | some (d, more) ↦ more ]
]

-- `(?: - (.+))?$`, where no group is the empty text.
unfoldable pub parse_error : Text → Option Text
unfolding expect
parse_error [] = some []
parse_error (c ∷ s) = do
  rest ← expect (codes " - ") (c ∷ s)
  (if not (nat_eq (length rest) 0) && all (λ c. not (nat_eq c 10)) rest then some rest else none)

pub record Recorded : Type 0 where
  pub name : Text
  pub rc : ℤ
  pub elapsed : Text
  pub ok_status : Bool
  pub error : Text

-- `_SUMMARY_RE.match(line)` and what is made of its groups.
unfoldable pub parse_line : Text → Option Recorded
parse_line s = do
  status ← parse_status s
  name ← span1 (λ c. not (nat_eq c b':')) status.1
  after_name ← expect (codes ": rc=") name.1
  rc ← parse_int after_name
  after_rc ← expect (codes " elapsed=") rc.1
  whole ← span1 is_digit after_rc
  after_time ← expect (codes "s") (parse_fraction whole.1).1
  error ← parse_error (skip_detection after_time)
  some (record {
    name = strip name.0;
    rc = rc.0;
    elapsed = whole.0 ++ (parse_fraction whole.1).0;
    ok_status = status.0 && rc.0 == pos 0;
    error = error;
  })

abbrev pub summary_header : Text
summary_header = codes "WORKLOAD SUMMARY"

unfoldable pub cons_some {ℓ} : {A : Type ℓ} → Option A → List A → List A
cons_some none l = l
cons_some (some a) l = a ∷ l

-- The loop; `in_summary` is whether the header has been seen.
unfoldable pub parse_lines : Bool → List Text → List Recorded
unfolding occurs parse_line strip cons_some
parse_lines in_summary [] = []
parse_lines in_summary (line ∷ lines) =
    let header = occurs summary_header line in
    let rest = parse_lines (in_summary || header) lines in
    if header then rest else cons_some (if in_summary then parse_line (strip line) else none) rest

unfoldable pub parse_batch_from_lines : List Text → List Recorded
unfolding parse_lines
parse_batch_from_lines lines = parse_lines false lines

-- An entry of the history; `execution_status` is whether it succeeded, and `detection_status` is
-- always the same.
pub record Entry : Type 0 where
  pub id : String
  pub started : ℕ
  pub ended : Option ℕ
  pub elapsed : ℕ
  pub rc : Option ℤ
  pub execution_succeeded : Bool
  pub summary_available : Bool
  pub total : ℕ
  pub passed : ℕ
  pub failed : ℕ
  pub results : List Recorded

-- `run.ended or time.time()`
unfoldable pub end_time : ℕ → Option ℕ → ℕ
end_time now none = now
end_time now (some zero) = now
end_time now (some (suc t)) = suc t

unfoldable pub exit_zero : Option ℤ → Bool
exit_zero none = false
exit_zero (some rc) = rc == pos 0

unfoldable pub entry_of : ℕ → Run → Entry
unfolding parse_batch_from_lines end_time exit_zero
entry_of now run =
    let results = parse_batch_from_lines (map codes run.lines) in
    let passed = length (keep (λ r. r.ok_status) results) in
    record {
      id = run.id;
      started = run.started;
      ended = run.ended;
      elapsed = end_time now run.ended - run.started;
      rc = run.returncode;
      execution_succeeded = exit_zero run.returncode;
      summary_available = not (nat_eq (length results) 0);
      total = length results;
      passed = passed;
      failed = length results - passed;
      results = results;
    }

-- `max(1, min(100, n))` for the setting SRX_HISTORY_MAX
unfoldable pub history_max : ℕ → ℕ
history_max n = max 1 (min 100 n)

-- `while len(HISTORY) > HISTORY_MAX: HISTORY.pop(0)`, in rounds bounded by the length.
unfoldable pub trim : ℕ → ℕ → List Entry → List Entry
trim zero limit hist = hist
trim (suc fuel) limit hist =
    let rest = trim fuel limit (drop 1 hist) in if leb (length hist) limit then hist else rest

-- `data[-max(1, HISTORY_MAX):]` of a file that holds a list, else nothing.
unfoldable pub load_history : ℕ → Option (List Entry) → List Entry
load_history limit none = []
load_history limit (some hist) = drop (length hist - max 1 limit) hist

unfoldable pub batch_of : Entry → Batch
batch_of e = record { id = e.id; passed = e.passed; failed = e.failed; total = e.total }

-- The history after a call, and what the call returns; it raises if the file cannot be written.
unfoldable pub record_batch : Bool → ℕ → ℕ → List Entry → Run → List Entry × Result Batch
unfolding entry_of trim batch_of
record_batch saved limit now hist run =
    let grown = hist ++ entry_of now run ∷ [] in
    (
      trim (length grown) limit grown,
      if saved then ok (batch_of (entry_of now run)) else err os_error,
    )
