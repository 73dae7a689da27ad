-- ===== src/Crawler/Url/Targets.antt =====
-- The URLs that `target_url` makes, told without its tests.
use Prim.Native.String.{◌++◌}
use srx.Prelude.{
  ℕ, ◌≤◌, ◌<◌, ◌≡◌, ◌≢◌, ◌⊎◌, refl, subst, inl, inr, true, false, ◌||◌, Option, none, some, is_some,
  String, List, [], ◌∷◌, All, all, any, leb, nat_eq, nat_eq_iff, length, eq_string, ◌==◌, Result,
  ok, Bool-cases, arith,
}
use srx.Prelude.Int.{ℤ, pos, negsuc}
use srx.Prelude.Text.{codes, is_alnum, decimal}
use srx.Address.{is_ip_address}
use srx.Dashboard.Fields.{matches, starts_with_slash}
use srx.Dashboard.Escape.{is_crawl_path}
use srx.Crawler.Paths.{validate_path}
use srx.Crawler.Url.{
  SplitUrl, is_plain, is_hostname, is_host, is_web_scheme, is_port_zero, request_path, validate_url,
  IsCrawlable, host_text, port_text, target_url,
}
use srx.Crawler.Url.Checks.{validate_url_iff, target_url-validate_url}

abbrev pub IsNameChar : ℕ → Type 0
IsNameChar c = (is_alnum c ≡ true) ⊎ ((c ≡ b'.') ⊎ (c ≡ b'-'))

-- A letter or digit, and then up to 252 letters, digits, dots and dashes.
abbrev pub IsHostname : List ℕ → Type 0
IsHostname [] = ⊥
IsHostname (c ∷ cs) = (is_alnum c ≡ true) × All IsNameChar cs × (length cs ≤ 252)

-- The host of a URL for a target: the text of an address, in brackets for one of version 6, which alone has
-- a colon, or a host name as it is.
pub data HostText (address_text : String → String) (target : String) : String → Type 0 where
  version4 :
      is_ip_address target ≡ true
      → All (λ c. c ≢ b':') (codes target)
      → HostText address_text target (address_text target)
  version6 :
      is_ip_address target ≡ true
      → any (nat_eq b':') (codes target) ≡ true
      → HostText address_text target ("[" ++ (address_text target ++ "]"))
  name :
      is_ip_address target ≡ false → IsHostname (codes target) → HostText address_text target target

abbrev pub PortText : Option ℤ → String → Type 0
PortText none tail = tail ≡ ""
PortText (some p) tail = (n : ℕ) × (p ≡ pos n) × (1 ≤ n) × (n ≤ 65535) × (tail ≡ ":" ++ decimal n)

-- A path of at most 2048 characters that begins with a slash and passes the check of crawl paths.
abbrev pub IsPath : String → Type 0
IsPath path =
    (length (codes path) ≤ 2048)
    × (starts_with_slash (codes path) ≡ true)
    × (is_crawl_path path ≡ true)

-- A URL in printable ASCII without blanks and backslashes, and what its parts are.
pub record IsWebUrl (url : String) (parsed : SplitUrl) : Type 0 where
  pub short : length (codes url) ≤ 4096
  pub printable : All (λ c. (32 < c) × (c < 127) × (c ≢ b'\\')) (codes url)
  pub web : (parsed.scheme ≡ "http") ⊎ (parsed.scheme ≡ "https")
  pub host :
      (h : String) × (parsed.hostname ≡ some h) × ((is_ip_address h ≡ true) ⊎ IsHostname (codes h))
  pub port : (p : Option ℕ) × (parsed.port ≡ ok p) × (p ≢ some 0)
  pub no_user : parsed.username ≡ none
  pub no_password : parsed.password ≡ none
  pub no_fragment : parsed.fragment ≡ ""
  pub path : IsPath (request_path parsed)

name_chars :
    (cs : List ℕ)
    → all (λ c. is_alnum c || (nat_eq c b'.' || nat_eq c b'-')) cs ≡ true
    → All IsNameChar cs
unfolding all
name_chars [] h = tt
name_chars (c ∷ cs) h = (char, name_chars cs (ground arith))
  where
    char : IsNameChar c
    char = elim (Bool-cases (is_alnum c)) [
      | inl e ↦ inl e
      | inr e ↦ elim (Bool-cases (nat_eq c b'.')) [
        | inl d ↦ inr (inl ((nat_eq_iff c b'.').0 d))
        | inr d ↦ inr (inr ((nat_eq_iff c b'-').0 (ground arith)))
      ]
    ]

is_hostname-IsHostname : (s : String) → is_hostname s ≡ true → IsHostname (codes s)
unfolding is_hostname matches
is_hostname-IsHostname String.[] h = absurd (ground arith)
is_hostname-IsHostname (String.◌∷◌ c s) h =
    (ground arith, name_chars (codes s) (ground arith), ground arith)

no_colon : (cs : List ℕ) → any (nat_eq b':') cs ≡ false → All (λ c. c ≢ b':') cs
unfolding any
no_colon [] h = tt
no_colon (c ∷ cs) h = (λ e. absurd (ground arith), no_colon cs (ground arith))

host_text-HostText :
    (address_text : String → String) (target host : String)
    → host_text address_text target ≡ ok host
    → HostText address_text target host
unfolding host_text
host_text-HostText address_text target host h = elim (Bool-cases (is_ip_address target)) [
  | inl ip ↦ elim (Bool-cases (any (nat_eq b':') (codes target))) [
    | inl colon ↦
        subst (HostText address_text target) {x = "[" ++ (address_text target ++ "]")}
          (ground arith) (version6 ip colon)
    | inr plain ↦
        subst (HostText address_text target) {x = address_text target} (ground arith)
          (version4 ip (no_colon (codes target) plain))
  ]
  | inr other ↦ elim (Bool-cases (is_hostname target)) [
    | inl good ↦
        subst (HostText address_text target) {x = target} (ground arith)
          (name other (is_hostname-IsHostname target good))
    | inr bad ↦ absurd (ground arith)
  ]
]

port_text-PortText :
    (port : Option ℤ) (tail : String) → port_text port ≡ ok tail → PortText port tail
unfolding port_text
port_text-PortText none tail h = ground arith
port_text-PortText (some (pos n)) tail h = (n, refl, ground arith, ground arith, ground arith)
port_text-PortText (some (negsuc n)) tail h = absurd (ground arith)

validate_path-IsPath : (path : String) → validate_path path ≡ ok path → IsPath path
unfolding validate_path
validate_path-IsPath path h = (ground arith, ground arith, ground arith)

any-All :
    (cs : List ℕ)
    → any (λ c. leb c 32 || (leb 127 c || nat_eq c b'\\')) cs ≡ false
    → All (λ c. (32 < c) × (c < 127) × (c ≢ b'\\')) cs
unfolding any
any-All [] h = tt
any-All (c ∷ cs) h =
    ((ground arith, ground arith, λ e. absurd (ground arith)), any-All cs (ground arith))

web_scheme : (s : String) → is_web_scheme s ≡ true → (s ≡ "http") ⊎ (s ≡ "https")
unfolding is_web_scheme
web_scheme s h = elim (Bool-cases (s == "http")) [
  | inl e ↦ inl ((eq_string.beq_iff s "http").0 e)
  | inr e ↦ inr ((eq_string.beq_iff s "https").0 (ground arith))
]

host_cases : (h : String) → is_host h ≡ true → (is_ip_address h ≡ true) ⊎ IsHostname (codes h)
unfolding is_host
host_cases h e = elim (Bool-cases (is_ip_address h)) [
  | inl ip ↦ inl ip
  | inr other ↦ inr (is_hostname-IsHostname h (ground arith))
]

port_nonzero : (p : Option ℕ) → is_port_zero p ≡ false → p ≢ some 0
unfolding is_port_zero
port_nonzero none h e = cc
port_nonzero (some n) h e = absurd (ground arith)

absent : (o : Option String) → is_some o ≡ false → o ≡ none
absent none h = refl
absent (some s) h = cc

IsCrawlable-IsWebUrl :
    (url : String) (parsed : SplitUrl)
    → is_plain url ≡ true
    → IsCrawlable parsed
    → IsWebUrl url parsed
unfolding is_plain
IsCrawlable-IsWebUrl url parsed plain c = record {
  short = ground arith;
  printable = any-All (codes url) (ground arith);
  web = web_scheme parsed.scheme c.web;
  host = let (h, e, g) = c.host in (h, e, host_cases h g);
  port = let (p, e, z) = c.port in (p, e, port_nonzero p z);
  no_user = absent parsed.username c.anonymous.0;
  no_password = absent parsed.password c.anonymous.1;
  no_fragment = c.whole;
  path = validate_path-IsPath (request_path parsed) c.path_ok;
}

module _ (urlsplit : String → Result SplitUrl) (address_text : String → String) where
  -- A URL that is made for a target is the scheme, the host, the port if there is one, and the path. The
  -- host is the text of the target's address, in brackets for one of version 6, or a host name of
  -- letters, digits, dots and dashes; the port is from 1 to 65535; the path begins with a slash and
  -- passes the check of crawl paths. The crawler accepts this URL: it is printable, of scheme http or
  -- https, without user, password and fragment, its host is an address or a host name, and its port
  -- is not 0.
  pub target_url-IsWebUrl :
      (target path scheme : String) (port : Option ℤ) (url : String)
      → target_url urlsplit address_text target path scheme port ≡ ok url
      → (host : String) × (tail : String) × (parsed : SplitUrl) × HostText address_text target host
        × PortText port tail
        × IsPath path
        × (url ≡ scheme ++ ("://" ++ (host ++ (tail ++ path))))
        × (validate_url urlsplit url ≡ ok parsed)
        × (urlsplit url ≡ ok parsed)
        × IsWebUrl url parsed
  target_url-IsWebUrl target path scheme port url h =
      let (host, tail, parsed, p, e, t, u, v, s, c) =
        target_url-validate_url urlsplit address_text target path scheme port url h in
      (
        host,
        tail,
        parsed,
        host_text-HostText address_text target host e,
        port_text-PortText port tail t,
        validate_path-IsPath path p,
        u,
        v,
        s,
        IsCrawlable-IsWebUrl url parsed ((validate_url_iff urlsplit url parsed).0 v).0 c,
      )
