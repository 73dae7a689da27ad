-- ===== src/Dashboard/Origins.antt =====
-- `allowed_origins` and `Handler._authorized` of srx-dashboard/dashboard.py: which origins the operator
-- admits, and whether a request comes from one. What `urlparse` makes of an origin is an argument.
pub mod Boundary
mod Examples
use srx.Prelude.{
  ℕ, Bool, true, false, not, ◌&&◌, ◌||◌, Option, none, some, String, List, [], ◌∷◌, map, contains,
  nat_eq, leb, length, eq_string, ◌==◌, Result, ok, err, value_error, ◌>>=◌, ◌>>◌, guard,
  if◌then◌else◌,
}
use Prim.Native.String.{◌++◌ as append}
use srx.Prelude.Text.{decimal}

-- What `urlparse` makes of an origin; `exact` is whether path, query, fragment, user and password are
-- all empty.
pub record Url : Type 0 where
  pub scheme : String
  pub netloc : String
  pub has_hostname : Bool
  pub exact : Bool

-- The operator's settings; `is_loopback` raises if the bind address is not an address.
pub record Settings : Type 0 where
  pub is_loopback : Result Bool
  pub trust_proxy : Bool
  pub public_origin : String
  pub port : ℕ

-- `f"http://{host}:{PORT}"`
abbrev pub local_origin : String → ℕ → String
local_origin host port = append "http://" (append host (append ":" (decimal port)))

unfoldable pub local_origins : ℕ → List String
local_origins port =
    local_origin "127.0.0.1" port ∷ local_origin "localhost" port ∷ local_origin "[::1]" port ∷ []

module _ (urlparse : String → Url) where
  unfoldable pub is_exact_origin : String → Bool
  is_exact_origin origin =
      let parsed = urlparse origin in
      (parsed.scheme == "http" || parsed.scheme == "https")
      && parsed.has_hostname
      && parsed.exact
      && origin == append parsed.scheme (append "://" parsed.netloc)

  unfoldable pub allowed_origins : Settings → Result (List String)
  unfolding is_exact_origin local_origins
  allowed_origins s = do
    loopback ← s.is_loopback
    _ ← guard (loopback || (s.trust_proxy && not (s.public_origin == ""))) value_error
    (if s.public_origin == "" then ok (local_origins s.port) else (do
      _ ← guard (is_exact_origin s.public_origin) value_error
      _ ← guard (loopback || (urlparse s.public_origin).scheme == "https") value_error
      ok (s.public_origin ∷ [])))

-- The headers that the handler reads; those that may occur more than once are lists.
pub record Headers : Type 0 where
  pub host : List String
  pub origin : List String
  pub fetch_site : Option String
  pub transfer_encoding : Option String
  pub content_length : List String
  pub content_type : String
  pub last_event_id : Option String

-- `self.headers.get("Sec-Fetch-Site") == "cross-site"`
unfoldable pub is_cross_site : Option String → Bool
is_cross_site none = false
is_cross_site (some s) = s == "cross-site"

module _ (netloc : String → String) where
  -- `not origin or urlparse(origin[0]).netloc == host[0]`
  unfoldable pub is_pair : List String → List String → Bool
  is_pair (h ∷ hosts) (o ∷ origins) = netloc o == h
  is_pair hosts origins = true

  unfoldable pub all_allowed : List String → List String → Bool
  all_allowed allowed [] = true
  all_allowed allowed (o ∷ origins) = contains allowed o

  -- `_authorized(mutation)`
  unfoldable pub authorized : List String → Bool → Headers → Bool
  unfolding is_pair all_allowed is_cross_site
  authorized origins mutation h =
      nat_eq (length h.host) 1
      && all_allowed (map netloc origins) h.host
      && leb (length h.origin) 1
      && all_allowed origins h.origin
      && (not mutation || not (nat_eq (length h.origin) 0))
      && not (is_cross_site h.fetch_site)
      && is_pair h.host h.origin
