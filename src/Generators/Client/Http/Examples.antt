-- ===== src/Generators/Client/Http/Examples.antt =====
-- The statement about responses at one that a firewall blocks.
use srx.Prelude.{ok, String, ℕ, ◌↔◌, ◌≡◌, refl, some, List, [], ◌∷◌, all}
use srx.Prelude.Text.{codes}
use srx.Generators.Client.Http.{Part, chunk, connected, raw_http, first_line, words, status_of}
use srx.Generators.Client.Http.Receiving.{Succeeds, raw_http_iff}

abbrev blocked : List Part
blocked = chunk (codes "HTTP/1.1 403 Forb") ∷ chunk (codes "idden") ∷ chunk [] ∷ []

read_blocked : status_of (words [] (first_line (codes "HTTP/1.1 403 Forbidden"))) ≡ some 403
unfolding status_of words first_line all
read_blocked = refl

raw_http_iff_example :
    (raw_http (connected "10.0.0.1" 40000 blocked) (some "EICAR") ≡ ok ("10.0.0.1", 40000)) ↔ (
      Succeeds (some "EICAR") blocked
      × (◌≡◌ {A = String × ℕ} ("10.0.0.1", 40000) ("10.0.0.1", 40000)))
raw_http_iff_example = raw_http_iff "10.0.0.1" 40000 blocked (some "EICAR") ("10.0.0.1", 40000)
