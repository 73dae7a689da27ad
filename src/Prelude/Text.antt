-- ===== src/Prelude/Text.antt =====
-- Python's `str` as the native text. Where the source looks at characters, `codes` gives the code
-- points. `upper` and `lower` change the letters A to Z alone.
use Prim.Native.Char.{Char, char, code, IsScalar}
use Prim.Native.Nat.{compare, Ordering}
use native.Mathlib.Decide.{dec_lt}
use mathlib.Core.Logic.{dite}
use srx.Prelude.{
  ℕ, zero, suc, refl, ◌+◌, ◌-◌, ◌/◌, ◌%◌, ◌<◌, ◌≡◌, Bool, true, false, ◌&&◌, ◌||◌, String, List, [],
  ◌∷◌, arith, leb, ltb, nat_eq, if◌then◌else◌, ◌*◌,
}

abbrev pub codes : String → List ℕ
codes String.[] = []
codes (String.◌∷◌ c s) = code c ∷ codes s

compare_surrogate : (n : ℕ) → n < 128 → compare n 55296 ≡ Ordering.lt
compare_surrogate n h = ground arith

pub IsScalar-ascii : (n : ℕ) → n < 128 → IsScalar n
IsScalar-ascii n h = rw (compare_surrogate n h) tt

unfoldable pub ascii : ℕ → Char
unfolding dec_lt
ascii n = dite (dec_lt n 128) (λ h. char n (IsScalar-ascii n h)) (λ _. char 63 tt)

abbrev pub is_upper : ℕ → Bool
is_upper c = leb 65 c && leb c 90

abbrev pub is_lower : ℕ → Bool
is_lower c = leb 97 c && leb c 122

abbrev pub is_digit : ℕ → Bool
is_digit c = leb 48 c && leb c 57

abbrev pub is_alnum : ℕ → Bool
is_alnum c = is_upper c || is_lower c || is_digit c

unfoldable pub upper : String → String
unfolding ascii
upper String.[] = String.[]
upper (String.◌∷◌ c s) = String.◌∷◌ (if is_lower (code c) then ascii (code c - 32) else c) (upper s)

unfoldable pub lower : String → String
unfolding ascii
lower String.[] = String.[]
lower (String.◌∷◌ c s) = String.◌∷◌ (if is_upper (code c) then ascii (code c + 32) else c) (lower s)

upper_test : upper "Tcp-6" ≡ "TCP-6"
unfolding upper dec_lt
upper_test = refl

-- `s.split(c)` on code points.
unfoldable pub split : ℕ → List ℕ → List (List ℕ)
split c [] = [] ∷ []
split c (x ∷ xs) = put (nat_eq x c) x (split c xs)
  where
    put : Bool → ℕ → List (List ℕ) → List (List ℕ)
    put true x parts = [] ∷ parts
    put false x [] = (x ∷ []) ∷ []
    put false x (part ∷ parts) = (x ∷ part) ∷ parts

-- `str(n)` of a natural number: each round writes one digit, and `n + 1` rounds are enough.
unfoldable pub digits_from : ℕ → ℕ → String → String
unfolding ascii
digits_from zero n rest = rest
digits_from (suc fuel) n rest =
    let more = digits_from fuel (n / 10) (String.◌∷◌ (ascii (48 + n % 10)) rest) in
    if ltb n 10 then String.◌∷◌ (ascii (48 + n)) rest else more

unfoldable pub decimal : ℕ → String
unfolding digits_from
decimal n = digits_from (suc n) n String.[]

-- The number that digits write, behind the digits read so far.
unfoldable pub digits_value : ℕ → List ℕ → ℕ
digits_value acc [] = acc
digits_value acc (c ∷ cs) = digits_value (acc * 10 + (c - 48)) cs

decimal_test : decimal 40305 ≡ "40305"
unfolding decimal dec_lt
decimal_test = refl

begins : List ℕ → List ℕ → Bool
begins [] t = true
begins (c ∷ s) [] = false
begins (c ∷ s) (d ∷ t) = nat_eq c d && begins s t

unfoldable pub occurs : List ℕ → List ℕ → Bool
unfolding begins
occurs s [] = begins s []
occurs s (d ∷ t) = begins s (d ∷ t) || occurs s t

-- `needle in text`
unfoldable pub is_infix : String → String → Bool
unfolding occurs
is_infix needle s = occurs (codes needle) (codes s)

-- The characters that `str.isspace` accepts.
unfoldable pub is_white : ℕ → Bool
is_white c =
    nat_eq c 32
    || (leb 9 c && leb c 13)
    || (leb 28 c && leb c 31)
    || nat_eq c 133
    || nat_eq c 160
    || nat_eq c 5760
    || (leb 8192 c && leb c 8202)
    || nat_eq c 8232
    || nat_eq c 8233
    || nat_eq c 8239
    || nat_eq c 8287
    || nat_eq c 12288

unfoldable pub strip_left : String → String
unfolding is_white
strip_left String.[] = String.[]
strip_left (String.◌∷◌ c s) =
    let rest = strip_left s in if is_white (code c) then rest else String.◌∷◌ c s

unfoldable pub all_white : String → Bool
unfolding is_white
all_white String.[] = true
all_white (String.◌∷◌ c s) = is_white (code c) && all_white s

unfoldable pub strip_right : String → String
unfolding all_white
strip_right String.[] = String.[]
strip_right (String.◌∷◌ c s) =
    if all_white (String.◌∷◌ c s) then String.[] else String.◌∷◌ c (strip_right s)
