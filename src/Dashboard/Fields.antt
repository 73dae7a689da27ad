-- ===== src/Dashboard/Fields.antt =====
-- The checks on single fields in `validate_request` of srx-dashboard/dashboard.py. Every refusal is a
-- ValueError.
use srx.Prelude.{
  ℕ, Bool, true, false, not, ◌&&◌, ◌||◌, Option, none, some, String, List, [], ◌∷◌, all, any, leb,
  nat_eq, length, contains, eq_string, ◌==◌, Result, ok, err, value_error, ◌>>=◌, if◌then◌else◌,
}
use srx.Prelude.Int.{ℤ, pos, negsuc}
use srx.Prelude.Text.{codes, is_digit, is_alnum, digits_value, strip_left, strip_right}
use srx.Dashboard.Catalog.{Kind, int_kind, str_kind, ParamSpec, limit_of}
use srx.Dashboard.Run.{Param, Params, int, str}
use srx.Dashboard.Escape.{is_control, is_crawl_path}

-- A parsed JSON value; what is in a list, or in an object that is not the parameters, is never read.
mutual
  pub data Json : Type 0 where
    null real array : Json
    boolean : Bool → Json
    integer : ℤ → Json
    string : String → Json
    object : Members → Json

  pub data Members : Type 0 where
    end : Members
    member : String → Json → Members → Members

unfoldable pub get : String → Members → Option Json
get k end = none
get k (member j v m) = if j == k then some v else get k m

-- The local function `text`: short text with no control characters, stripped.
unfoldable pub clean_text : Json → ℕ → Result String
unfolding strip_left strip_right
clean_text (string s) limit =
    if leb (length (codes s)) limit && not (any is_control (codes s))
    then ok (strip_right (strip_left s))
    else err value_error
clean_text _ limit = err value_error

unfoldable pub matches : (ℕ → Bool) → (ℕ → Bool) → List ℕ → Bool
matches head tail [] = false
matches head tail (c ∷ cs) = head c && all tail cs

abbrev pub target_tail : ℕ → Bool
target_tail c =
    is_alnum c || nat_eq c b'.' || nat_eq c b':' || nat_eq c b'%' || nat_eq c b'_' || nat_eq c b'-'

abbrev pub qname_head : ℕ → Bool
qname_head c = is_alnum c || nat_eq c b'_'

abbrev pub qname_tail : ℕ → Bool
qname_tail c = is_alnum c || nat_eq c b'_' || nat_eq c b'.' || nat_eq c b'-'

-- A native int, or text that matches `[0-9]{1,8}`.
pub to_number : Json → Result ℤ
unfolding digits_value
to_number (integer n) = ok n
to_number (string s) =
    let cs = codes s in
    if all is_digit cs && (leb 1 (length cs) && leb (length cs) 8)
    then ok (pos (digits_value 0 cs))
    else err value_error
to_number _ = err value_error

unfoldable pub in_range : ℕ → ℤ → Result Param
in_range limit (pos n) = if leb 1 n && leb n limit then ok (int n) else err value_error
in_range limit (negsuc n) = err value_error

unfoldable pub check_number : String → String → Json → Result Param
unfolding to_number in_range
check_number workload name value = do n ← to_number value; in_range (limit_of workload name) n

unfoldable pub starts_with_slash : List ℕ → Bool
starts_with_slash [] = false
starts_with_slash (c ∷ cs) = nat_eq c 47

unfoldable pub is_empty : List String → Bool
is_empty [] = true
is_empty (s ∷ l) = false

-- The tests of a text parameter on its stripped value.
unfoldable pub is_admitted : String → ParamSpec → String → Bool
unfolding matches starts_with_slash is_crawl_path is_empty
is_admitted workload p s =
    (not (s == "") && (is_empty p.choices || contains p.choices s))
    && (not (p.name == "path") || starts_with_slash (codes s))
    && (not (workload == "crawl" && p.name == "path") || is_crawl_path s)
    && (not (p.name == "qname") || matches qname_head qname_tail (codes s))

unfoldable pub check_text : String → ParamSpec → Json → Result Param
unfolding clean_text is_admitted
check_text workload p value = do
  s ← clean_text value (if p.name == "path" then 2048 else 253)
  if is_admitted workload p s then ok (str s) else err value_error

of_default : Param → Json
of_default (int n) = integer (pos n)
of_default (str s) = string s

-- `params.get(name, default)`, where empty text is the default too.
given : ParamSpec → Option Json → Json
unfolding of_default
given p none = of_default p.default
given p (some (string s)) = if s == "" then of_default p.default else string s
given p (some value) = value

unfoldable pub check_kind : Kind → String → ParamSpec → Json → Result Param
unfolding check_text
check_kind int_kind workload p value = check_number workload p.name value
check_kind str_kind workload p value = check_text workload p value

-- The loop that fills `clean`.
unfoldable pub check_params : String → List ParamSpec → Members → Result Params
unfolding check_kind given get
check_params workload [] params = ok []
check_params workload (p ∷ specs) params = do
  v ← check_kind p.kind workload p (given p (get p.name params))
  clean ← check_params workload specs params
  ok ((p.name, v) ∷ clean)
