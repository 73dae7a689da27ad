-- ===== src/Generators/Client/Dns/RoundTrip.antt =====
-- A reader of the question of a DNS message, as RFC 1035 lays it out, reads the labels of the name that
-- was asked for.
use srx.Prelude.{
  ◌<◌, ltb, ℕ, zero, suc, ◌≡◌, ◌≤◌, refl, sym, ap, ◌∙◌, true, Option, none, some, String, List, [],
  ◌∷◌, ◌++◌, All, length, drop, leb, nat_eq, ok, value_error, guard, >>=-eq-ok, >>-eq-ok, ok_inj,
  arith, if◌then◌else◌,
}
use mathlib.Core.List.{append_assoc}
use srx.Prelude.Text.{codes, split}
use srx.Generators.Client.Dns.{header, encode, utf8, encode_labels, question_end, query_packet}

unfoldable pub in_front : List ℕ → Option (List (List ℕ) × List ℕ) → Option (List (List ℕ) × List ℕ)
in_front label none = none
in_front label (some (labels, rest)) = some (label ∷ labels, rest)

-- The labels of a name and what follows it. The first argument is how many bytes the label at hand still
-- lacks, the second what is read of it. A length above 63 is no length of a label.
unfoldable pub read_name : ℕ → List ℕ → List ℕ → Option (List (List ℕ) × List ℕ)
unfolding in_front
read_name need label [] = none
read_name zero label (n ∷ bytes) =
    let next = read_name n [] bytes in
    if nat_eq n 0 then some ([], bytes) else if leb n 63 then next else none
read_name (suc zero) label (b ∷ bytes) = in_front (label ++ b ∷ []) (read_name zero [] bytes)
read_name (suc (suc need)) label (b ∷ bytes) = read_name (suc need) (label ++ b ∷ []) bytes

-- The name of the question of a message: it stands behind twelve bytes of header.
unfoldable pub read_question : List ℕ → Option (List (List ℕ) × List ℕ)
unfolding read_name
read_question message = read_name zero [] (drop 12 message)

read_name-label :
    (need : ℕ) (read label rest : List ℕ)
    → length label ≡ suc need
    → read_name (suc need) read (label ++ rest) ≡ in_front (read ++ label) (read_name zero [] rest)
unfolding read_name
read_name-label need read [] rest h = absurd (omega arith)
read_name-label zero read (b ∷ []) rest h = refl
read_name-label zero read (b ∷ c ∷ label) rest h = absurd (omega arith)
read_name-label (suc need) read (b ∷ label) rest h =
    read_name-label need (read ++ b ∷ []) label rest (omega arith)
    ∙ ap (λ l. in_front l (read_name zero [] rest)) (append_assoc read (b ∷ []) label)

-- A label of a name that DNS admits: 1 to 63 characters of ASCII.
abbrev pub IsLabel : List ℕ → Type 0
IsLabel label = (1 ≤ length label) × (length label ≤ 63) × All (λ c. c < 128) label

encode-ascii : (label : List ℕ) → All (λ c. c < 128) label → encode label ≡ label
unfolding encode utf8
encode-ascii [] h = refl
encode-ascii (c ∷ label) h =
    let small : ltb c 128 ≡ true = ground (arith, h.0) in rw (small, encode-ascii label h.1) refl

read_name-length :
    (label rest : List ℕ)
    → IsLabel label
    → read_name zero [] (length label ∷ label ++ rest) ≡ in_front label (read_name zero [] rest)
unfolding read_name
read_name-length [] rest h = absurd (omega arith)
read_name-length (b ∷ label) rest h =
    small ∙ read_name-label (length label) [] (b ∷ label) rest refl
  where
    small :
        read_name zero [] (suc (length label) ∷ b ∷ label ++ rest)
        ≡ read_name (suc (length label)) [] (b ∷ label ++ rest)
    small = ground arith

read_name-encode_labels :
    (labels : List (List ℕ)) (bytes rest : List ℕ)
    → All IsLabel labels
    → encode_labels labels ≡ ok bytes
    → read_name zero [] (bytes ++ 0 ∷ rest) ≡ some (labels, rest)
unfolding encode_labels in_front
read_name-encode_labels [] bytes rest h e =
    ap (λ b. read_name zero [] (b ++ 0 ∷ rest)) (sym (ok_inj e)) ∙ unfold read_name in refl
read_name-encode_labels (label ∷ labels) bytes rest h e =
    let (_, e1) = >>-eq-ok (guard (leb (length label) 255) value_error) _ e in
    let (more, q, e2) = >>=-eq-ok (encode_labels labels) _ e1 in
    ap (λ b. read_name zero [] (b ++ 0 ∷ rest)) (sym (ok_inj e2))
    ∙ (ap (λ b. read_name zero [] (length label ∷ b))
          (append_assoc (encode label) more (0 ∷ rest)
            ∙ ap (λ l. l ++ (more ++ 0 ∷ rest)) (encode-ascii label h.0.2))
        ∙ (read_name-length label (more ++ 0 ∷ rest) h.0
            ∙ ap (in_front label) (read_name-encode_labels labels more rest h.1 q)))

encode_labels-ok :
    (labels : List (List ℕ))
    → All IsLabel labels
    → (bytes : List ℕ) × (encode_labels labels ≡ ok bytes)
unfolding encode_labels
encode_labels-ok [] h = ([], refl)
encode_labels-ok (label ∷ labels) h =
    let (bytes, e) = encode_labels-ok labels h.1 in
    ((length label ∷ encode label) ++ bytes, rw (e, fits) refl)
  where
    fits : leb (length label) 255 ≡ true
    fits = ground arith

-- If every label of the name has between 1 and 63 characters, all of them ASCII, a packet is built, and in it a reader of
-- the question finds exactly these labels, the type A and the class IN.
pub read_question-query_packet :
    (qname : String)
    → All IsLabel (split b'.' (codes qname))
    → (packet : List ℕ) × (query_packet qname ≡ ok packet)
      × (read_question packet ≡ some (split b'.' (codes qname), 0 ∷ 1 ∷ 0 ∷ 1 ∷ []))
unfolding query_packet read_question
read_question-query_packet qname h =
    let (bytes, e) = encode_labels-ok (split b'.' (codes qname)) h in
    (
      header ++ (bytes ++ question_end),
      rw e refl,
      read_name-encode_labels (split b'.' (codes qname)) bytes (0 ∷ 1 ∷ 0 ∷ 1 ∷ []) h e,
    )
