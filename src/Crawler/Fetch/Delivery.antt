-- ===== src/Crawler/Fetch/Delivery.antt =====
-- A server that delivers a whole body in pieces.
use srx.Prelude.{ℕ, suc, ◌≤◌, ◌<◌, ◌≡◌, true, some, String, List, [], ◌∷◌, ◌++◌, length}
use srx.Crawler.Fetch.{
  bytes, Response, initial, with_headers, decoded, body_charset, calls, is_readable, texts,
  Libraries, Crawl,
}
use srx.Crawler.{Token}

abbrev pub concat : List (List ℕ) → List ℕ
concat [] = []
concat (p ∷ ps) = p ++ concat ps

-- A piece that one read can take.
abbrev pub IsPiece : List ℕ → Type 0
IsPiece p = (0 < length p) × (length p ≤ 16384)

-- From this round on the reads give these pieces, where they ask for enough, and then nothing.
abbrev pub Delivers : Response → ℕ → List (List ℕ) → Type 0
Delivers r i [] = (n : ℕ) → r.reads i n ≡ bytes []
Delivers r i (p ∷ ps) = ((n : ℕ) → length p ≤ n → r.reads i n ≡ bytes p) × Delivers r (suc i) ps

-- What `fetch` gives for such a server.
abbrev pub whole_page : Response → String → List ℕ → Crawl
whole_page r url body =
    record (with_headers r (record (initial url) { status_code = some r.status })) {
      body = body;
      response_complete = true;
      succeeded = true;
    }

-- The page can be read: if its body is text and not empty, a codec reads it and so does the HTML parser.
abbrev pub IsLegible : Libraries → Crawl → Type 0
IsLegible lib c =
    is_readable c.content_type ≡ true
    → 0 < length c.body
    → (name : String) × (ts : List (List ℕ)) × (tokens : List Token) × (decoded lib
          (body_charset lib c) c.body
        ≡ (name, texts ts))
      × (calls lib c.content_type ts ≡ some tokens)

-- What the extraction leaves of a success.
abbrev pub Kept : Crawl → Crawl → Type 0
Kept c d =
    (d.body ≡ c.body)
    × (d.succeeded ≡ c.succeeded)
    × (d.error ≡ c.error)
    × (d.response_complete ≡ c.response_complete)
    × (d.truncated ≡ c.truncated)
