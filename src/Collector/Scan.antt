-- ===== src/Collector/Scan.antt =====
-- What the regular expressions of collectors/syslog_collector.py are made of: one character, and the
-- longest run of a class. No run here could stop earlier and still be followed by what the expression
-- wants next, so a run that is longest is the one that matches.
use Prim.Native.Char.{Char, code}
use srx.Prelude.{
  ℕ, ◌+◌, ◌≡◌, refl, ap, inl, inr, Bool, true, false, ◌&&◌, Option, none, some, String, nat_eq,
  length, Bool-cases, arith, if◌then◌else◌,
}
use srx.Prelude.Text.{codes}

infixl 5 ◌>>=◌
abbrev pub ◌>>=◌ {ℓ κ} : {A : Type ℓ} {B : Type κ} → Option A → (A → Option B) → Option B
none >>= f = none
some a >>= f = f a

-- `◌++◌` of texts, by clauses.
infixr 65 ◌++◌
abbrev pub ◌++◌ : String → String → String
String.[] ++ t = t
(String.◌∷◌ c s) ++ t = String.◌∷◌ c (s ++ t)

abbrev pub size : String → ℕ
size s = length (codes s)

abbrev pub all_chars : (ℕ → Bool) → String → Bool
all_chars p String.[] = true
all_chars p (String.◌∷◌ c s) = p (code c) && all_chars p s

abbrev pub is_empty : String → Bool
is_empty String.[] = true
is_empty (String.◌∷◌ c s) = false

-- The character that a text begins with is in the class.
abbrev pub starts : (ℕ → Bool) → String → Bool
starts p String.[] = false
starts p (String.◌∷◌ c s) = p (code c)

unfoldable pub in_front : Char → String × String → String × String
in_front c (front, rest) = (String.◌∷◌ c front, rest)

-- `[...]*`, and the rest.
unfoldable pub span : (ℕ → Bool) → String → String × String
span p String.[] = (String.[], String.[])
span p (String.◌∷◌ c s) =
    let rest = in_front c (span p s) in if p (code c) then rest else (String.[], String.◌∷◌ c s)

unfoldable pub nonempty : String × String → Option (String × String)
nonempty (String.[], rest) = none
nonempty (String.◌∷◌ c s, rest) = some (String.◌∷◌ c s, rest)

-- `[...]+`, and the rest.
unfoldable pub span1 : (ℕ → Bool) → String → Option (String × String)
span1 p s = nonempty (span p s)

-- One character of a class.
unfoldable pub char_in : (ℕ → Bool) → String → Option String
char_in p String.[] = none
char_in p (String.◌∷◌ c s) = if p (code c) then some s else none

-- This character.
unfoldable pub char_of : ℕ → String → Option String
char_of k s = char_in (nat_eq k) s

pub append_nil : (a : String) → (a ++ "") ≡ a
append_nil String.[] = refl
append_nil (String.◌∷◌ c a) = ap (String.◌∷◌ c) (append_nil a)

pub append_assoc : (a b c : String) → ((a ++ b) ++ c) ≡ a ++ (b ++ c)
append_assoc String.[] b c = refl
append_assoc (String.◌∷◌ x a) b c = ap (String.◌∷◌ x) (append_assoc a b c)

pub size-append : (a b : String) → size (a ++ b) ≡ size a + size b
size-append String.[] b = omega arith
size-append (String.◌∷◌ c a) b = omega (arith, size-append a b)

pub all_chars-append :
    (p : ℕ → Bool) (a b : String)
    → all_chars p a ≡ true
    → all_chars p b ≡ true
    → all_chars p (a ++ b) ≡ true
all_chars-append p String.[] b h k = k
all_chars-append p (String.◌∷◌ c a) b h k = ground (arith, all_chars-append p a b)

-- A run ends where another class begins.
pub span-append :
    (p : ℕ → Bool) (a b : String)
    → all_chars p a ≡ true
    → starts p b ≡ false
    → span p (a ++ b) ≡ (a, b)
unfolding span in_front
span-append p String.[] String.[] h k = refl
span-append p String.[] (String.◌∷◌ c b) h k = rw k refl
span-append p (String.◌∷◌ c a) b h k = elim (Bool-cases (p (code c))) [
  | inl e ↦ rw (span-append p a b (rw e at h) k, e) refl
  | inr e ↦ absurd (cc (rw e at h))
]

pub span1-append :
    (p : ℕ → Bool) (a b : String)
    → is_empty a ≡ false
    → all_chars p a ≡ true
    → starts p b ≡ false
    → span1 p (a ++ b) ≡ some (a, b)
unfolding span1 nonempty
span1-append p String.[] b n h k = cc n
span1-append p (String.◌∷◌ c a) b n h k = rw (span-append p (String.◌∷◌ c a) b h k) refl

pub all_chars-imp :
    (p q : ℕ → Bool) (s : String)
    → ((c : ℕ) → p c ≡ true → q c ≡ true)
    → all_chars p s ≡ true
    → all_chars q s ≡ true
all_chars-imp p q String.[] f h = refl
all_chars-imp p q (String.◌∷◌ c s) f h =
    let here : q (code c) ≡ true = f (code c) (ground arith) in
    let later : all_chars q s ≡ true = all_chars-imp p q s f (ground arith) in rw (here, later) refl
