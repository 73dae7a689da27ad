-- ===== src/Crawler/Url/Checks.antt =====
-- What the checks of a URL let through.
use Prim.Native.String.{◌++◌}
use srx.Prelude.{
  ◌≡◌, ◌↔◌, refl, sym, ap, ◌∙◌, subst, inl, inr, true, false, not, ◌&&◌, Option, none, some,
  is_some, String, all, eq_string, ◌==◌, Result, ok, value_error, guard, ok_inj, >>=-eq-ok,
  guard-eq-ok, arith, Bool-cases,
}
use srx.Prelude.Int.{ℤ}
use srx.Prelude.Text.{split}
use srx.Address.{is_ip_address}
use srx.Crawler.Paths.{validate_path}
use srx.Crawler.Url.{
  SplitUrl, is_plain, is_host, is_web_scheme, is_port_zero, request_path, host_of, checked_url,
  validate_url, IsCrawlable, host_text, port_text, target_url,
}

validate_path_self : (path : String) {p : String} → validate_path path ≡ ok p → p ≡ path
unfolding validate_path
validate_path_self path h = ground arith

host_of_inv : (o : Option String) {h : String} → host_of o ≡ ok h → o ≡ some h
unfolding host_of
host_of_inv none h = cc h
host_of_inv (some x) h = ground arith

checked_url_inv :
    (parsed : SplitUrl) {q : SplitUrl}
    → checked_url parsed ≡ ok q
    → (q ≡ parsed) × IsCrawlable parsed
unfolding checked_url
checked_url_inv parsed h =
    let (host, e1, h1) = >>=-eq-ok (host_of parsed.hostname) _ h in
    let (port, e2, h2) = >>=-eq-ok parsed.port _ h1 in
    let (u3, e3, h3) = >>=-eq-ok (guard (is_web_scheme parsed.scheme) value_error) _ h2 in
    let (u4, e4, h4) =
      >>=-eq-ok (guard (not (is_some parsed.username) && not (is_some parsed.password)) value_error)
        _ h3 in
    let (u5, e5, h5) =
      >>=-eq-ok (guard (parsed.fragment == "" && not (is_port_zero port)) value_error) _ h4 in
    let (u6, e6, h6) = >>=-eq-ok (guard (is_host host) value_error) _ h5 in
    let (p, e7, h7) = >>=-eq-ok (validate_path (request_path parsed)) _ h6 in
    let nobody = guard-eq-ok _ _ e4 in
    let whole = guard-eq-ok _ _ e5 in
    (
      sym (ok_inj h7),
      record {
        web = guard-eq-ok _ _ e3;
        host = (host, host_of_inv parsed.hostname e1, guard-eq-ok _ _ e6);
        port = (port, e2, ground arith);
        anonymous = ground arith;
        whole = (eq_string.beq_iff parsed.fragment "").0 (ground arith);
        path_ok = e7 ∙ ap ok (validate_path_self (request_path parsed) e7);
      },
    )

no_host : is_host "" ≡ false
unfolding is_host is_ip_address all split
no_host = refl

host_nonempty : (h : String) → is_host h ≡ true → (h == "") ≡ false
host_nonempty h e = elim (Bool-cases (h == "")) [
  | inl q ↦
      let p : h ≡ "" = (eq_string.beq_iff h "").0 q in
      cc (no_host, subst (λ x. is_host x ≡ true) p e)
  | inr q ↦ q
]

checked_url_lem : (parsed : SplitUrl) → IsCrawlable parsed → checked_url parsed ≡ ok parsed
unfolding checked_url host_of validate_path request_path
checked_url_lem parsed c =
    let (h, e1, g1) = c.host in
    let (p, e2, g2) = c.port in
    rw
      (
        e1,
        host_of,
        host_nonempty h g1,
        e2,
        c.web,
        c.anonymous.0,
        c.anonymous.1,
        (eq_string.beq_iff parsed.fragment "").1 c.whole,
        g2,
        g1,
        c.path_ok,
      )
      refl

module _ (urlsplit : String → Result SplitUrl) where
  -- The crawler accepts a URL exactly if its text is plain and what urlsplit makes of it is crawlable.
  pub validate_url_iff :
      (url : String) (parsed : SplitUrl)
      → (validate_url urlsplit url ≡ ok parsed)
        ↔ ((is_plain url ≡ true) × (urlsplit url ≡ ok parsed) × IsCrawlable parsed)
  unfolding validate_url
  validate_url_iff url parsed = (forward, λ h. rw (h.0, h.1, checked_url_lem parsed h.2) refl)
    where
      forward :
          validate_url urlsplit url ≡ ok parsed
          → (is_plain url ≡ true) × (urlsplit url ≡ ok parsed) × IsCrawlable parsed
      forward h =
          let (u, e1, h1) = >>=-eq-ok (guard (is_plain url) value_error) _ h in
          let (q, e2, h2) = >>=-eq-ok (urlsplit url) _ h1 in
          let (same, good) = checked_url_inv q h2 in (guard-eq-ok _ _ e1, rw same e2, rw same good)

  -- A URL that is made for a target is one that the crawler accepts, and it is the scheme, the host text,
  -- the port if there is one, and the path, which passed their own checks.
  pub target_url-validate_url :
      (address_text : String → String) (target path scheme : String) (port : Option ℤ)
      (url : String)
      → target_url urlsplit address_text target path scheme port ≡ ok url
      → (host : String) × (tail : String) × (parsed : SplitUrl) × (validate_path path ≡ ok path)
        × (host_text address_text target ≡ ok host)
        × (port_text port ≡ ok tail)
        × (url ≡ scheme ++ ("://" ++ (host ++ (tail ++ path))))
        × (validate_url urlsplit url ≡ ok parsed)
        × (urlsplit url ≡ ok parsed)
        × IsCrawlable parsed
  unfolding target_url
  target_url-validate_url address_text target path scheme port url h =
      let (p, e1, h1) = >>=-eq-ok (validate_path path) _ h in
      let (host, e2, h2) = >>=-eq-ok (host_text address_text target) _ h1 in
      let (tail, e3, h3) = >>=-eq-ok (port_text port) _ h2 in
      let (parsed, e4, h4) =
        >>=-eq-ok (validate_url urlsplit (scheme ++ ("://" ++ (host ++ (tail ++ path))))) _ h3 in
      let same : scheme ++ ("://" ++ (host ++ (tail ++ path))) ≡ url = ok_inj h4 in
      let valid : validate_url urlsplit url ≡ ok parsed =
        subst (λ u. validate_url urlsplit u ≡ ok parsed) same e4 in
      let (plain, split, good) = (validate_url_iff url parsed).0 valid in
      (
        host,
        tail,
        parsed,
        e1 ∙ ap ok (validate_path_self path e1),
        e2,
        e3,
        sym same,
        valid,
        split,
        good,
      )
