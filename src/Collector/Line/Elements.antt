-- ===== src/Collector/Line/Elements.antt =====
-- The elements of a printed line, and the pairs that are found in them.
use Prim.Native.Char.{Char, code}
use srx.Prelude.{
  ℕ, zero, suc, ◌+◌, ◌≤◌, ◌≡◌, refl, ap, sym, ◌∙◌, inl, inr, Bool, true, false, not, ◌&&◌, Option,
  none, some, String, List, [], ◌∷◌, map, nat_eq, length, All, arith, Bool-cases,
}
use srx.Collector.{Pairs}
use srx.Collector.Scan.{
  ◌>>=◌, size, is_empty, all_chars, starts, in_front, span, span1, span1-append, char_of, char_in,
  size-append, append_assoc, nonempty, all_chars-imp, ◌++◌,
}
use srx.Collector.Line.{
  is_key, in_sd_id, in_quotes, sd_elements, is_nil_body, field_text, checked_chunks, joined,
  value_at, pair_at, find_pairs,
}
use srx.Collector.Line.Printer.{
  escape, print_params, Element, print_element, print_elements, IsPair, IsElement, more_pairs,
  pairs_of,
}
use srx.Collector.Line.Matches.{quoted-escape, unescape-escape, sd_element-print_element}

abbrev pub chunk : Element → String
chunk e = print_element e ""

pub sd_elements-print_elements :
    (fuel : ℕ) (es : List Element) (rest : String)
    → All IsElement es
    → length es ≤ fuel
    → starts (nat_eq b'[') rest ≡ false
    → sd_elements (suc fuel) (print_elements es rest) ≡ some (map chunk es, rest)
unfolding char_of char_in sd_elements
sd_elements-print_elements fuel [] String.[] h l n = refl
sd_elements-print_elements fuel [] (String.◌∷◌ c s) h l n =
    let other : nat_eq b'[' (code c) ≡ false = n in rw (other, sd_elements, char_of, char_in) refl
sd_elements-print_elements zero (e ∷ es) rest h l n = absurd (omega arith)
sd_elements-print_elements (suc fuel) (e ∷ es) rest h l n =
    rw
      (
        sd_elements,
        sd_element-print_element e (print_elements es rest) h.0,
        sd_elements-print_elements fuel es rest h.1 (omega arith) n,
      )
      refl

print_params-size : (ps : Pairs) (rest : String) → size rest ≤ size (print_params ps rest)
print_params-size [] rest = omega arith
print_params-size ((k, v) ∷ ps) rest =
    let tail : String = print_params ps rest in
    omega (
      arith,
      print_params-size ps rest,
      size-append k ("=\"" ++ (escape v ++ ("\"" ++ tail))),
      size-append (escape v) ("\"" ++ tail),
    )

size-print_elements-ge :
    (es : List Element) (rest : String) → length es ≤ size (print_elements es rest)
size-print_elements-ge [] rest = omega arith
size-print_elements-ge ((id, ps) ∷ es) rest = omega (
  arith,
  size-append id (print_params ps (print_elements es rest)),
  print_params-size ps (print_elements es rest),
  size-print_elements-ge es rest,
)

is_nil_body-bracket : (t : String) → is_nil_body ("[" ++ t) ≡ false
unfolding is_nil_body
is_nil_body-bracket String.[] = refl
is_nil_body-bracket (String.◌∷◌ c t) = refl

-- What follows the elements: nothing, or a blank and some text.
abbrev pub is_tail : String → Bool
is_tail String.[] = true
is_tail (String.◌∷◌ c s) = nat_eq (code c) 32

-- The pairs are read from the elements alone.
pub field_text-print_elements :
    (e : Element) (es : List Element) (rest : String)
    → All IsElement (e ∷ es)
    → is_tail rest ≡ true
    → field_text (print_elements (e ∷ es) rest) ≡ some (joined (map chunk (e ∷ es)))
unfolding field_text checked_chunks
field_text-print_elements e es String.[] h t =
    rw
      (
        is_nil_body-bracket,
        sd_elements-print_elements (size (print_elements (e ∷ es) "")) (e ∷ es) "" h
            (size-print_elements-ge (e ∷ es) "") refl,
      )
      refl
field_text-print_elements e es (String.◌∷◌ c s) h t =
    rw
      (
        is_nil_body-bracket,
        sd_elements-print_elements (size (print_elements (e ∷ es) (String.◌∷◌ c s))) (e ∷ es)
            (String.◌∷◌ c s) h (size-print_elements-ge (e ∷ es) (String.◌∷◌ c s)) (ground arith),
        t,
      )
      refl

-- Neither part of a key nor an equals sign.
abbrev is_break : ℕ → Bool
is_break c = not (is_key c) && not (nat_eq c b'=')

abbrev not_equals : ℕ → Bool
not_equals c = not (nat_eq c b'=')

-- The rest of a run of key characters in text with no equals sign does not begin with one.
key_run :
    (p s : String)
    → all_chars not_equals p ≡ true
    → starts is_break s ≡ true
    → char_of b'=' (span is_key (p ++ s)).1 ≡ none
unfolding span in_front char_of char_in
key_run String.[] String.[] h k = refl
key_run String.[] (String.◌∷◌ c s) h k = ground arith
key_run (String.◌∷◌ c p) s h k = elim (Bool-cases (is_key (code c))) [
  | inl e ↦ rw e (key_run p s (ground arith) k)
  | inr e ↦ rw e (ground arith)
]

key_then_none :
    {A : Type 0} (w : String × String) (next : String × String → String → Option A)
    → char_of b'=' w.1 ≡ none
    → (nonempty w >>= λ k. char_of b'=' k.1 >>= next k) ≡ none
unfolding nonempty
key_then_none (String.[], rest) next h = refl
key_then_none (String.◌∷◌ c s, rest) next h = rw h refl

pair_at-none : (s : String) → char_of b'=' (span is_key s).1 ≡ none → pair_at s ≡ none
unfolding pair_at span1
pair_at-none s h = key_then_none (span is_key s) _ h

break_char :
    (c : Char) (s : String)
    → is_break (code c) ≡ true
    → find_pairs 0 (String.◌∷◌ c s) ≡ find_pairs 0 s
unfolding find_pairs
break_char c s h =
    rw (pair_at-none (String.◌∷◌ c s) (unfold span char_of char_in in ground arith), find_pairs)
      refl

-- Such text holds no pair.
noise :
    (p s : String)
    → all_chars not_equals p ≡ true
    → starts is_break s ≡ true
    → find_pairs 0 (p ++ s) ≡ find_pairs 0 s
unfolding find_pairs
noise String.[] s h k = refl
noise (String.◌∷◌ c p) s h k =
    rw (pair_at-none (String.◌∷◌ c p ++ s) (key_run (String.◌∷◌ c p) s h k), find_pairs)
      (noise p s (ground arith) k)

find_pairs-skip : (p s : String) → find_pairs (size p) (p ++ s) ≡ find_pairs 0 s
unfolding find_pairs
find_pairs-skip String.[] s = refl
find_pairs-skip (String.◌∷◌ c p) s = find_pairs-skip p s

pair_at_lem :
    (k v rest : String)
    → is_empty k ≡ false
    → all_chars is_key k ≡ true
    → pair_at (k ++ ("=\"" ++ (escape v ++ ("\"" ++ rest))))
      ≡ some ((k, v), size k + 1 + (size (escape v) + 2))
unfolding pair_at value_at char_of char_in
pair_at_lem k v rest n h =
    rw
      (
        span1-append is_key k ("=\"" ++ (escape v ++ ("\"" ++ rest))) n h refl,
        quoted-escape in_quotes (λ c e. ground arith) v rest,
        unescape-escape v,
      )
      refl

pair_text :
    (k e rest : String)
    → (k ++ ("=\"" ++ (e ++ "\""))) ++ rest ≡ k ++ ("=\"" ++ (e ++ ("\"" ++ rest)))
pair_text k e rest = simp append_assoc

skip_pair :
    (n : ℕ) (k e rest : String)
    → n ≡ size k + size e + 3
    → find_pairs n (k ++ ("=\"" ++ (e ++ ("\"" ++ rest)))) ≡ find_pairs 0 rest
skip_pair n k e rest h =
    ap (λ m. find_pairs m (k ++ ("=\"" ++ (e ++ ("\"" ++ rest)))))
      (omega (arith, size-append k ("=\"" ++ (e ++ "\"")), size-append e "\""))
    ∙ (ap (find_pairs (size (k ++ ("=\"" ++ (e ++ "\""))))) (sym (pair_text k e rest))
        ∙ find_pairs-skip (k ++ ("=\"" ++ (e ++ "\""))) rest)

find_pair :
    (k v rest : String)
    → is_empty k ≡ false
    → all_chars is_key k ≡ true
    → find_pairs 0 (k ++ ("=\"" ++ (escape v ++ ("\"" ++ rest)))) ≡ (k, v) ∷ find_pairs 0 rest
unfolding find_pairs
find_pair String.[] v rest n h = cc n
find_pair (String.◌∷◌ c k) v rest n h =
    rw (pair_at_lem (String.◌∷◌ c k) v rest n h, find_pairs)
      (ap (λ fields. (String.◌∷◌ c k, v) ∷ fields) (skip_pair _ k (escape v) rest (omega arith)))

find_pairs-print_params :
    (ps : Pairs) (rest : String)
    → All IsPair ps
    → find_pairs 0 (print_params ps rest) ≡ more_pairs ps (find_pairs 0 rest)
find_pairs-print_params [] rest h = break_char "]" rest refl
find_pairs-print_params ((k, v) ∷ ps) rest h =
    break_char " " _ refl
    ∙ (find_pair k v (print_params ps rest) h.0.0 h.0.1
        ∙ ap (λ fields. (k, v) ∷ fields) (find_pairs-print_params ps rest h.1))

starts-is_break : (ps : Pairs) (rest : String) → starts is_break (print_params ps rest) ≡ true
starts-is_break [] rest = refl
starts-is_break ((k, v) ∷ ps) rest = refl

find_pairs-print_element :
    (e : Element) (rest : String)
    → IsElement e
    → find_pairs 0 (print_element e rest) ≡ more_pairs (e.1) (find_pairs 0 rest)
find_pairs-print_element (id, ps) rest h =
    break_char "[" _ refl
    ∙ (noise id (print_params ps rest)
          (all_chars-imp in_sd_id not_equals id (λ c e. ground arith) h.1) (starts-is_break ps rest)
        ∙ find_pairs-print_params ps rest h.2)

print_params-append :
    (ps : Pairs) (rest : String) → print_params ps "" ++ rest ≡ print_params ps rest
print_params-append [] rest = refl
print_params-append ((k, v) ∷ ps) rest = simp (append_assoc, print_params-append ps rest)

chunk-append : (e : Element) (rest : String) → chunk e ++ rest ≡ print_element e rest
chunk-append (id, ps) rest = simp (append_assoc, print_params-append ps rest)

-- In the chunks the parser finds all the pairs, in order, with their values unescaped.
pub find_pairs-joined :
    (e : Element) (es : List Element)
    → All IsElement (e ∷ es)
    → find_pairs 0 (joined (map chunk (e ∷ es))) ≡ pairs_of (e ∷ es)
unfolding joined
find_pairs-joined e [] h = find_pairs-print_element e "" h.0 ∙ unfold find_pairs in refl
find_pairs-joined e (d ∷ es) h =
    ap (find_pairs 0) (chunk-append e (" " ++ joined (map chunk (d ∷ es))))
    ∙ (find_pairs-print_element e (" " ++ joined (map chunk (d ∷ es))) h.0
        ∙ (ap (more_pairs e.1) (break_char " " (joined (map chunk (d ∷ es))) refl)
            ∙ ap (more_pairs e.1) (find_pairs-joined d es h.1)))
