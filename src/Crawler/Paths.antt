-- ===== src/Crawler/Paths.antt =====
-- `validate_limits` and `validate_path` of generators/web_crawler.py, against the dashboard's checks.
use srx.Prelude.{
  ◌≤◌, ◌≡◌, ◌↔◌, true, false, ◌&&◌, String, [], leb, length, Bool-cases, inl, inr, eq_string, ◌==◌,
  Result, ok, err, value_error, ◌>>=◌, arith, if◌then◌else◌,
}
use Prim.Native.Char.{Char}
use srx.Prelude.Text.{codes}
use srx.Limits.{Argument, bounded_int}
use srx.Dashboard.Catalog.{text_param}
use srx.Dashboard.Escape.{is_crawl_path}
use srx.Dashboard.Fields.{starts_with_slash, is_admitted, is_empty}

unfoldable pub validate_limits : Argument → Argument → Result (Unit {0})
unfolding bounded_int
validate_limits max_bytes timeout = do
  b ← bounded_int max_bytes 4194304 1
  t ← bounded_int timeout 30 1
  ok tt

-- `validate_path` of text.
unfoldable pub validate_path : String → Result String
validate_path path =
    if leb (length (codes path)) 2048 && (starts_with_slash (codes path) && is_crawl_path path)
    then ok path
    else err value_error

not_nil : (c : Char) (s : String) → ((String.◌∷◌ c s) == "") ≡ false
not_nil c s = elim (Bool-cases ((String.◌∷◌ c s) == "")) [
  | inl e ↦ absurd (cc ((eq_string.beq_iff (String.◌∷◌ c s) "").0 e))
  | inr e ↦ e
]

-- The crawler accepts exactly the paths of at most 2048 characters that the dashboard accepts for a
-- crawl.
pub validate_path_iff :
    (path : String)
    → (validate_path path ≡ ok path) ↔ (
        (length (codes path) ≤ 2048) × (is_admitted "crawl" (text_param "path" "/" []) path ≡ true))
unfolding validate_path is_admitted is_empty starts_with_slash
validate_path_iff String.[] = (λ h. absurd (ground arith), λ h. absurd (ground arith))
validate_path_iff (String.◌∷◌ c s) =
    (λ h. (ground arith, ground (arith, not_nil c s)), λ h. ground arith)
