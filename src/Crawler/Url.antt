-- ===== src/Crawler/Url.antt =====
-- `validate_url` and `target_url` of generators/web_crawler.py. `urlsplit` and the text of a parsed
-- address are arguments. Every refusal is a ValueError.
pub mod Checks
pub mod Targets
use Prim.Native.String.{◌++◌}
use srx.Prelude.{
  ℕ, ◌≤◌, ◌≡◌, ◌↔◌, Bool, true, false, not, ◌&&◌, ◌||◌, Option, none, some, is_some, String, List,
  [], ◌∷◌, any, leb, nat_eq, length, eq_string, ◌==◌, Result, ok, err, value_error, guard, ◌>>=◌,
  ◌>>◌, ok_inj, >>=-eq-ok, guard-eq-ok, arith, if◌then◌else◌,
}
use srx.Prelude.Int.{ℤ, pos, pos_part, leb_ℤ}
use srx.Prelude.Text.{codes, is_alnum, decimal}
use srx.Address.{is_ip_address}
use srx.Dashboard.Fields.{matches}
use srx.Crawler.Paths.{validate_path}

-- What the code reads of the result of `urlsplit`; the port raises ValueError unless it is in 0..65535.
pub record SplitUrl : Type 0 where
  pub scheme : String
  pub hostname : Option String
  pub username : Option String
  pub password : Option String
  pub fragment : String
  pub port : Result (Option ℕ)
  pub path : String
  pub query : String

-- `re.fullmatch(r"[A-Za-z0-9][A-Za-z0-9.-]{0,252}", host)`
unfoldable pub is_hostname : String → Bool
unfolding matches
is_hostname host =
    leb (length (codes host)) 253
    && matches is_alnum (λ c. is_alnum c || (nat_eq c b'.' || nat_eq c b'-')) (codes host)

unfoldable pub is_host : String → Bool
unfolding is_hostname
is_host host = is_ip_address host || is_hostname host

-- The tests of the text in front of `urlsplit`.
unfoldable pub is_plain : String → Bool
is_plain url =
    leb (length (codes url)) 4096
    && not (any (λ c. leb c 32 || (leb 127 c || nat_eq c b'\\')) (codes url))

-- `not parsed.hostname`, and the host otherwise
unfoldable pub host_of : Option String → Result String
host_of none = err value_error
host_of (some h) = if h == "" then err value_error else ok h

unfoldable pub is_port_zero : Option ℕ → Bool
is_port_zero none = false
is_port_zero (some p) = nat_eq p 0

-- `(parsed.path or "/") + ("?" + parsed.query if parsed.query else "")`
unfoldable pub request_path : SplitUrl → String
request_path parsed =
    (if parsed.path == "" then "/" else parsed.path)
    ++ (if parsed.query == "" then "" else "?" ++ parsed.query)

unfoldable pub is_web_scheme : String → Bool
is_web_scheme s = s == "http" || s == "https"

unfoldable pub checked_url : SplitUrl → Result SplitUrl
checked_url parsed = do
  host ← host_of parsed.hostname
  port ← parsed.port
  guard (is_web_scheme parsed.scheme) value_error
  guard (not (is_some parsed.username) && not (is_some parsed.password)) value_error
  guard (parsed.fragment == "" && not (is_port_zero port)) value_error
  guard (is_host host) value_error
  p ← validate_path (request_path parsed)
  ok parsed

unfoldable pub validate_url : (String → Result SplitUrl) → String → Result SplitUrl
validate_url urlsplit url = do
  guard (is_plain url) value_error
  parsed ← urlsplit url
  checked_url parsed

-- `f"[{address}]" if address.version == 6 else str(address)`, and a host name as it is. Only an address
-- of version 6 has a colon.
unfoldable pub host_text : (String → String) → String → Result String
host_text address_text target =
    if is_ip_address target
    then ok (
        if any (nat_eq b':') (codes target)
        then "[" ++ (address_text target ++ "]")
        else address_text target)
    else if is_hostname target
    then ok target
    else err value_error

-- A port that is given is an integer.
unfoldable pub port_text : Option ℤ → Result String
port_text none = ok ""
port_text (some p) =
    if leb_ℤ (pos 1) p && leb_ℤ p (pos 65535)
    then ok (":" ++ decimal (pos_part p))
    else err value_error

unfoldable pub target_url :
    (String → Result SplitUrl)
    → (String → String)
    → String
    → String
    → String
    → Option ℤ
    → Result String
target_url urlsplit address_text target path scheme port = do
  p ← validate_path path
  host ← host_text address_text target
  tail ← port_text port
  let url = scheme ++ ("://" ++ (host ++ (tail ++ path)))
  parsed ← validate_url urlsplit url
  ok url

-- What a URL must be before the crawler opens a connection.
pub record IsCrawlable (parsed : SplitUrl) : Type 0 where
  pub web : is_web_scheme parsed.scheme ≡ true
  pub host : (h : String) × (parsed.hostname ≡ some h) × (is_host h ≡ true)
  pub port : (p : Option ℕ) × (parsed.port ≡ ok p) × (is_port_zero p ≡ false)
  pub anonymous : (is_some parsed.username ≡ false) × (is_some parsed.password ≡ false)
  pub whole : parsed.fragment ≡ ""
  pub path_ok : validate_path (request_path parsed) ≡ ok (request_path parsed)
