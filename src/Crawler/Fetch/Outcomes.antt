-- ===== src/Crawler/Fetch/Outcomes.antt =====
-- How a crawl ends: with a result, or by an AssertionError of a library in the extraction.
use srx.Prelude.{◌⊎◌, none, Result, err, assertion_error, ℕ, ◌<◌, ◌≡◌, true, List, length, ok}
use srx.Crawler.Fetch.{
  Exchange, Libraries, Crawl, decoded, body_charset, is_readable, asserts, texts,
}
use srx.Crawler.Fetch.Answers.{IsHonest}

-- An AssertionError of a library in the extraction: the body is text and not empty, and the codec raised
-- it, or the HTML parser did on what the codec gave.
abbrev pub Asserts : Libraries → Crawl → Type 0
Asserts lib c =
    (is_readable c.content_type ≡ true)
    × (0 < length c.body)
    × (((decoded lib (body_charset lib c) c.body).1 ≡ asserts)
        ⊎ ((ts : List (List ℕ)) × ((decoded lib (body_charset lib c) c.body).1 ≡ texts ts)
            × (lib.tokens ts ≡ none)))

module _ (lib : Libraries) (x : Exchange) (limit : ℕ) where
  -- How the extraction ends.
  abbrev Extracted : Crawl → Result Crawl → Type 0
  Extracted c o =
      ((d : Crawl) × (o ≡ ok d) × IsHonest x limit d) ⊎ ((o ≡ err assertion_error) × Asserts lib c)
