-- ===== src/Generators/Client/Dns.antt =====
-- `L7Client._raw_dns` of generators/l7_client.py: the packet of a query, and the check of its answer.
pub mod RoundTrip
mod Examples
use srx.Prelude.{
  ℕ, zero, suc, ◌+◌, Bool, true, false, not, ◌&&◌, ◌||◌, Option, none, some, String, List, [], ◌∷◌,
  ◌++◌, length, leb, ltb, ◌/◌, ◌%◌, nat_eq, get_or, Result, ok, err, value_error, runtime_error,
  os_error, ◌>>=◌, ◌>>◌, guard, if◌then◌else◌,
}
use srx.Prelude.Text.{codes, split}

abbrev pub txn : List ℕ
txn = 0xab ∷ 0xcd ∷ []

abbrev pub header : List ℕ
header = txn ++ (1 ∷ 0 ∷ 0 ∷ 1 ∷ 0 ∷ 0 ∷ 0 ∷ 0 ∷ 0 ∷ 0 ∷ [])

-- The bytes of a character in UTF-8.
unfoldable pub utf8 : ℕ → List ℕ
utf8 c =
    if ltb c 128
    then c ∷ []
    else if ltb c 2048
    then (192 + c / 64) ∷ (128 + c % 64) ∷ []
    else if ltb c 65536
    then (224 + c / 4096) ∷ (128 + c / 64 % 64) ∷ (128 + c % 64) ∷ []
    else (240 + c / 262144) ∷ (128 + c / 4096 % 64) ∷ (128 + c / 64 % 64) ∷ (128 + c % 64) ∷ []

-- `label.encode()`
unfoldable pub encode : List ℕ → List ℕ
unfolding utf8
encode [] = []
encode (c ∷ label) = utf8 c ++ encode label

-- The loop over the labels: the length is that of the text, and `bytes` refuses a number above 255.
unfoldable pub encode_labels : List (List ℕ) → Result (List ℕ)
unfolding encode
encode_labels [] = ok []
encode_labels (label ∷ labels) = do
  _ ← guard (leb (length label) 255) value_error
  rest ← encode_labels labels
  ok ((length label ∷ encode label) ++ rest)

-- Type A, class IN, behind the empty label.
abbrev pub question_end : List ℕ
question_end = 0 ∷ 0 ∷ 1 ∷ 0 ∷ 1 ∷ []

unfoldable pub query_packet : String → Result (List ℕ)
unfolding encode_labels split
query_packet qname = do
  labels ← encode_labels (split b'.' (codes qname))
  ok (header ++ (labels ++ question_end))

unfoldable pub starts_with_txn : List ℕ → Bool
starts_with_txn (a ∷ b ∷ rest) = nat_eq a 0xab && nat_eq b 0xcd
starts_with_txn response = false

-- Twelve bytes, the transaction and the bit of an answer, `response[2] & 0x80`.
unfoldable pub is_answer : List ℕ → Bool
unfolding starts_with_txn
is_answer response =
    leb 12 (length response) && starts_with_txn response && leb 128 (get_or response 2 0)

-- What the socket does: it cannot connect, send or receive, or it gives an address and an answer.
pub data Exchange : Type 0 where
  fails : Exchange
  answers : String → ℕ → List ℕ → Exchange

unfoldable pub answered : Exchange → Result (String × ℕ)
unfolding is_answer
answered fails = err os_error
answered (answers src_ip src_port response) = do
  _ ← guard (is_answer response) runtime_error
  ok (src_ip, src_port)

unfoldable pub raw_dns : Exchange → String → Result (String × ℕ)
unfolding query_packet answered
raw_dns exchange qname = do packet ← query_packet qname; answered exchange
