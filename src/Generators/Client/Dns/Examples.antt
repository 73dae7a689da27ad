-- ===== src/Generators/Client/Dns/Examples.antt =====
-- The statement about queries at a name of the lab, and what becomes of an empty label.
use srx.Prelude.{none, ℕ, ◌≡◌, refl, some, List, [], ◌∷◌, ok, ◌>>=◌, arith}
use srx.Prelude.Text.{codes, split}
use srx.Generators.Client.Dns.{query_packet}
use srx.Generators.Client.Dns.RoundTrip.{read_question, read_question-query_packet}

-- An empty label ends the name early.
early_end :
    (query_packet "a..b" >>= λ p. ok (read_question p))
    ≡ ok (some ((97 ∷ []) ∷ [], 1 ∷ 98 ∷ 0 ∷ 0 ∷ 1 ∷ 0 ∷ 1 ∷ []))
unfolding query_packet read_question
early_end = refl

-- A label of one character beyond ASCII is two bytes behind the length 1, so the second byte is read as
-- the length of a label, which it cannot be.
cut_label : (query_packet "é" >>= λ p. ok (read_question p)) ≡ ok none
unfolding query_packet read_question
cut_label = refl

read_question-query_packet_example :
    (packet : List ℕ) × (query_packet "probe.lab" ≡ ok packet)
    × (read_question packet ≡ some (split b'.' (codes "probe.lab"), 0 ∷ 1 ∷ 0 ∷ 1 ∷ []))
unfolding split
read_question-query_packet_example = read_question-query_packet "probe.lab" (omega arith)
