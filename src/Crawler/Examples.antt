-- ===== src/Crawler/Examples.antt =====
-- The statements about the parser at a small page and about one path.
use srx.Prelude.{none, some, String, List, [], ◌∷◌, Result, ok}
use srx.Prelude.Text.{codes}
use srx.Crawler.{Split, Token, start_tag, end_tag, characters}

abbrev lab_join : String → String → Result String
lab_join url href = ok href

abbrev lab_split : String → Result Split
lab_split link =
    ok (record { scheme = "http"; hostname = some "lab"; username = none; password = none })

abbrev page : List Token
page =
    start_tag "title" []
    ∷ characters (codes "A  page")
    ∷ end_tag "title"
    ∷ start_tag "a" (("href", some "http://lab/next") ∷ [])
    ∷ characters (codes "next")
    ∷ end_tag "a"
    ∷ []
