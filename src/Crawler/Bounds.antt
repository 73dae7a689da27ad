-- ===== src/Crawler/Bounds.antt =====
-- What a page can make the parser keep.
use srx.Prelude.{
  ◌≤◌, ◌≡◌, true, false, String, List, [], ◌∷◌, length, contains, All, eq_string, Result, ok,
}
use srx.Prelude.Text.{codes}
use srx.Crawler.{Split, PageParser, is_link}

-- No entry stands in the list twice.
abbrev pub IsUnique : List String → Type 0
IsUnique [] = Unit
IsUnique (x ∷ xs) = (contains xs x ≡ false) × IsUnique xs

module _ (urljoin : String → String → Result String) (urlsplit : String → Result Split) where
  -- A link that may be reported.
  abbrev pub IsReported : String → Type 0
  IsReported link =
      (length (codes link) ≤ 1024)
      × ((parsed : Split) × (urlsplit link ≡ ok parsed) × (is_link link parsed ≡ true))

  -- The bounds on what is reported of a page.
  pub record IsBounded (p : PageParser) : Type 0 where
    pub title_short : length p.title ≤ 512
    pub text_short : length p.text ≤ 2048
    pub links_few : length p.links ≤ 20
    pub links_good : All IsReported p.links
    pub links_unique : IsUnique p.links
