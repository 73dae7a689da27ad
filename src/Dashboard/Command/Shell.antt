-- ===== src/Dashboard/Command/Shell.antt =====
-- How a POSIX shell reads one simple line into words, as far as quotes and `&&` go. Wherever a
-- character would have another meaning (an expansion, a pattern, a redirection, an escape, a line end),
-- the reading stops with none.
use srx.Prelude.{ℕ, Bool, ◌||◌, Option, none, some, List, [], ◌∷◌, ◌++◌, nat_eq, if◌then◌else◌}
use srx.Prelude.Text.{is_alnum}

pub data Token : Type 0 where
  word : List ℕ → Token
  and_if : Token

-- What the reader is in: nothing, one `&`, or a word and the quotes inside it.
pub data Mode : Type 0 where
  between ampersand : Mode
  plain single double : List ℕ → Mode

pub record Reader : Type 0 where
  pub tokens : List Token
  pub mode : Mode

-- A character that stands for itself outside quotes, at any place of a word.
unfoldable pub is_literal : ℕ → Bool
is_literal c =
    is_alnum c
    || nat_eq c b'_'
    || nat_eq c b'@'
    || nat_eq c b'%'
    || nat_eq c b'+'
    || nat_eq c b'='
    || nat_eq c b':'
    || nat_eq c b','
    || nat_eq c b'.'
    || nat_eq c b'/'
    || nat_eq c b'-'

-- Inside double quotes `$`, the backquote and the backslash are special.
is_expansion : ℕ → Bool
is_expansion c = nat_eq c 36 || nat_eq c 96 || nat_eq c 92

outside : List Token → Option (List ℕ) → ℕ → Option Reader
unfolding is_literal
outside ts w c =
    if nat_eq c 32
    then some (record { tokens = ended w; mode = between })
    else if nat_eq c 39
    then some (record { tokens = ts; mode = single (text w) })
    else if nat_eq c 34
    then some (record { tokens = ts; mode = double (text w) })
    else if nat_eq c 38
    then some (record { tokens = ended w; mode = ampersand })
    else if is_literal c
    then some (record { tokens = ts; mode = plain (text w ++ c ∷ []) })
    else none
  where
    text : Option (List ℕ) → List ℕ
    text none = []
    text (some w) = w

    ended : Option (List ℕ) → List Token
    ended none = ts
    ended (some w) = ts ++ word w ∷ []

unfoldable pub step : Reader → ℕ → Option Reader
unfolding outside is_expansion
step r c = elim r.mode [
  | between ↦ outside r.tokens none c
  | plain w ↦ outside r.tokens (some w) c
  | ampersand ↦
      if nat_eq c 38
      then some (record { tokens = r.tokens ++ and_if ∷ []; mode = between })
      else none
  | single w ↦ some (record r { mode = if nat_eq c 39 then plain w else single (w ++ c ∷ []) })
  | double w ↦
      if nat_eq c 34
      then some (record r { mode = plain w })
      else if is_expansion c
      then none
      else some (record r { mode = double (w ++ c ∷ []) })
]

-- Reading goes on from a reader that there is.
unfoldable pub read : Option Reader → List ℕ → Option Reader
read r [] = r
read none (c ∷ cs) = none
read (some r) (c ∷ cs) = read (step r c) cs

unfoldable pub finished : Option Reader → Option (List Token)
finished none = none
finished (some r) = elim r.mode [
  | between ↦ some r.tokens
  | plain w ↦ some (r.tokens ++ word w ∷ [])
  | other ↦ none
]

abbrev pub start : Reader
start = record { tokens = []; mode = between }

-- The words and the `&&` of a line.
unfoldable pub shell_words : List ℕ → Option (List Token)
unfolding read finished step
shell_words cs = finished (read (some start) cs)
