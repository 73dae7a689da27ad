-- ===== src/Dashboard/Escape.antt =====
-- The path check of `validate_request` in srx-dashboard/dashboard.py, with `unquote` on ASCII text.
use srx.Prelude.{
  ℕ, ◌+◌, ◌-◌, ◌*◌, Bool, false, not, ◌&&◌, ◌||◌, Option, none, some, String, List, [], ◌∷◌, ◌++◌,
  any, is_some, leb, ltb, nat_eq, eq_string, if◌then◌else◌,
}
use srx.Prelude.Text.{codes, is_digit}

abbrev pub is_control : ℕ → Bool
is_control c = ltb c 32 || nat_eq c 127

hex_digit : ℕ → Option ℕ
hex_digit c =
    if is_digit c
    then some (c - 48)
    else if leb 97 c && leb c 102
    then some (c - 87)
    else if leb 65 c && leb c 70
    then some (c - 55)
    else none

-- How much of an escape `%XX` has been read.
pub data Escape : Type 0 where
  outside percent : Escape
  percent_digit : ℕ → Escape

next : Escape → ℕ → Escape
unfolding hex_digit
next outside c = if nat_eq c 37 then percent else outside
next percent c =
    if is_some (hex_digit c) then percent_digit c else if nat_eq c 37 then percent else outside
next (percent_digit a) c = if nat_eq c 37 then percent else outside

shown : ℕ → List ℕ
shown c = if nat_eq c 37 then [] else c ∷ []

emitted : Escape → ℕ → List ℕ
unfolding hex_digit shown
emitted outside c = shown c
emitted percent c = if is_some (hex_digit c) then [] else 37 ∷ shown c
emitted (percent_digit a) c = with_low (hex_digit a) (hex_digit c)
  where
    with_low : Option ℕ → Option ℕ → List ℕ
    with_low (some h) (some l) = (h * 16 + l) ∷ []
    with_low h l = 37 ∷ a ∷ shown c

-- The bytes that `unquote` decodes from ASCII text: `%` with two hexadecimal digits is one byte.
unquoted : Escape → List ℕ → List ℕ
unfolding next emitted
unquoted outside [] = []
unquoted percent [] = 37 ∷ []
unquoted (percent_digit a) [] = 37 ∷ a ∷ []
unquoted e (c ∷ cs) = emitted e c ++ unquoted (next e c) cs

-- The path of a crawl: it has one slash first, no backslash, fragment or blank, and decodes to no
-- control character and no backslash.
unfoldable pub is_crawl_path : String → Bool
unfolding unquoted
is_crawl_path s =
    let cs = codes s in
    not (double_slash cs)
    && not (any (λ c. nat_eq c 92 || nat_eq c 35 || leb c 32 || leb 127 c) cs)
    && not (any (λ c. is_control c || nat_eq c 92) (unquoted outside cs))
  where
    double_slash : List ℕ → Bool
    double_slash (a ∷ b ∷ cs) = nat_eq a 47 && nat_eq b 47
    double_slash cs = false
