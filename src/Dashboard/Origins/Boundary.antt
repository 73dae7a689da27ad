-- ===== src/Dashboard/Origins/Boundary.antt =====
-- Who may change something: a page of an admitted origin, and on the network only through the proxy.
use srx.Prelude.{
  ◌≡◌, ◌↔◌, ◌⊎◌, refl, sym, ap, inl, inr, Bool, true, false, not, ◌&&◌, ◌||◌, Option, String, List,
  [], ◌∷◌, map, contains, nat_eq, leb, length, and-true, Bool-cases, eq_string, ◌==◌, ==_refl, ok,
  value_error, >>=-eq-ok, >>-eq-ok, guard, ◌>>◌, guard-eq-ok, ok_inj, arith, if◌then◌else◌,
}
use srx.Dashboard.Origins.{
  Url, Settings, Headers, local_origins, is_exact_origin, allowed_origins, is_pair, all_allowed,
  is_cross_site, authorized,
}

-- The request has one Host and one Origin header, the origin is admitted, the host is that of the
-- origin, and the browser does not call it cross-site.
abbrev pub SameOrigin : (String → String) → List String → Headers → Type 0
SameOrigin netloc origins h =
    (o : String) × (h.origin ≡ o ∷ [])
    × (h.host ≡ netloc o ∷ [])
    × (contains origins o ≡ true)
    × (is_cross_site h.fetch_site ≡ false)

contains-map :
    (f : String → String) (l : List String) (s : String)
    → contains l s ≡ true
    → contains (map f l) (f s) ≡ true
unfolding contains
contains-map f [] s h = h
contains-map f (x ∷ l) s h = elim (Bool-cases (x == s)) [
  | inl e ↦ rw ((eq_string.beq_iff x s).0 e, ==_refl (f s)) refl
  | inr e ↦ widen (f x == f s) (contains-map f l s (rw e at h))
]
  where
    widen :
        (b : Bool)
        → contains (map f l) (f s) ≡ true
        → (if b then true else contains (map f l) (f s)) ≡ true
    widen true q = refl
    widen false q = q

module _ (netloc : String → String) (origins : List String) where
  same_origin :
      (host origin : List String) (site : Option String)
      → (nat_eq (length host) 1
          && all_allowed netloc (map netloc origins) host
          && leb (length origin) 1
          && all_allowed netloc origins origin
          && (not true || not (nat_eq (length origin) 0))
          && not (is_cross_site site)
          && is_pair netloc host origin)
        ≡ true
      → (o : String) × (origin ≡ o ∷ [])
        × (host ≡ netloc o ∷ [])
        × (contains origins o ≡ true)
        × (is_cross_site site ≡ false)
  unfolding all_allowed is_pair
  same_origin [] origin site h = absurd (ground arith)
  same_origin (a ∷ b ∷ host) origin site h = absurd (ground arith)
  same_origin (a ∷ []) [] site h = absurd (ground arith)
  same_origin (a ∷ []) (o ∷ p ∷ origin) site h = absurd (ground arith)
  same_origin (a ∷ []) (o ∷ []) site h = (
    o,
    refl,
    ap (λ (x : String). x ∷ []) (sym ((eq_string.beq_iff (netloc o) a).0 (ground arith))),
    ground arith,
    ground arith,
  )

  authorized-same :
      (h : Headers) → SameOrigin netloc origins h → authorized netloc origins true h ≡ true
  unfolding authorized
  authorized-same h (o, e, a, c, s) =
      rw (e, a, c, s, contains-map netloc origins o c, ==_refl (netloc o)) refl

  -- A request that changes something is authorized exactly if it is from an admitted origin: it has one
  -- Origin header with one of the origins, one Host header with the host of that origin, and is not marked
  -- as cross-site.
  pub authorized_iff :
      (h : Headers) → (authorized netloc origins true h ≡ true) ↔ SameOrigin netloc origins h
  unfolding authorized
  authorized_iff h = (same_origin h.host h.origin h.fetch_site, authorized-same h)

-- The settings under which the server may start: on a loopback address, or behind a proxy that is
-- trusted, with one exact HTTPS origin.
abbrev pub IsGuarded : (String → Url) → Settings → List String → Type 0
IsGuarded urlparse s origins =
    (s.is_loopback ≡ ok true)
    ⊎ ((s.is_loopback ≡ ok false)
        × (s.trust_proxy ≡ true)
        × (origins ≡ s.public_origin ∷ [])
        × (is_exact_origin urlparse s.public_origin ≡ true)
        × ((urlparse s.public_origin).scheme ≡ "https"))

module _ (urlparse : String → Url) (s : Settings) (origins : List String) where
  beyond_loopback :
      (loopback : Bool)
      → s.is_loopback ≡ ok loopback
      → (guard (loopback || (s.trust_proxy && not (s.public_origin == ""))) value_error
          >> (if s.public_origin == ""
              then ok (local_origins s.port)
              else (guard (is_exact_origin urlparse s.public_origin) value_error
                  >> (guard (loopback || (urlparse s.public_origin).scheme == "https") value_error
                      >> ok (s.public_origin ∷ [])))))
        ≡ ok origins
      → IsGuarded urlparse s origins
  beyond_loopback true e h = inl e
  beyond_loopback false e h =
      let (trusted, h1) =
        >>-eq-ok (guard (s.trust_proxy && not (s.public_origin == "")) value_error) _ h in
      let (trust, set) = and-true s.trust_proxy _ (guard-eq-ok _ value_error trusted) in
      elim (Bool-cases (s.public_origin == "")) [
        | inl unset ↦ absurd (cc (rw unset at set))
        | inr given ↦ public trust (rw given at h1)
      ]
    where
      public :
          s.trust_proxy ≡ true
          → (guard (is_exact_origin urlparse s.public_origin) value_error
              >> (guard ((urlparse s.public_origin).scheme == "https") value_error
                  >> ok (s.public_origin ∷ [])))
            ≡ ok origins
          → IsGuarded urlparse s origins
      public trust h2 =
          let (exact, h3) =
            >>-eq-ok (guard (is_exact_origin urlparse s.public_origin) value_error) _ h2 in
          let (https, h4) =
            >>-eq-ok (guard ((urlparse s.public_origin).scheme == "https") value_error) _ h3 in
          inr (
            e,
            trust,
            sym (ok_inj h4),
            guard-eq-ok _ value_error exact,
            (eq_string.beq_iff _ "https").0 (guard-eq-ok _ value_error https),
          )

  -- The server starts only on a loopback address, or with a trusted proxy and a public origin that is
  -- exact and HTTPS, which is then the only one that is admitted.
  pub allowed_origins-IsGuarded :
      allowed_origins urlparse s ≡ ok origins → IsGuarded urlparse s origins
  unfolding allowed_origins
  allowed_origins-IsGuarded h =
      let (loopback, e, rest) = >>=-eq-ok s.is_loopback _ h in beyond_loopback loopback e rest
