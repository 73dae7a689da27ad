-- ===== src/Dashboard/Request/Texts.antt =====
-- What the text parameters of a request have been checked for: the local function `text` of
-- `validate_request` and the tests behind it.
use srx.Prelude.{
  ◌≤◌, ◌≡◌, refl, ◌⊎◌, ◌≢◌, ℕ, not, ◌&&◌, All, all, any, length, leb, inl, inr, Bool, true, false,
  ◌||◌, String, List, [], ◌∷◌, contains, eq_string, ◌==◌, Bool-cases, ok, subst, arith,
  if◌then◌else◌,
}
use srx.Dashboard.Catalog.{ParamSpec}
use srx.Dashboard.Fields.{
  starts_with_slash, matches, qname_head, qname_tail, Json, object, boolean, clean_text, is_empty,
  is_admitted,
}
use srx.Dashboard.Escape.{is_control, is_crawl_path}
use srx.Prelude.Text.{codes, is_white, all_white, strip_left, strip_right}
use Prim.Native.Char.{code}

-- Characters that are not controls.
abbrev pub IsPrintable : ℕ → Type 0
IsPrintable c = (32 ≤ c) × (c ≢ 127)

abbrev pub BeginsWith : ℕ → List ℕ → Type 0
BeginsWith a [] = ⊥
BeginsWith a (c ∷ cs) = c ≡ a

-- The first character of a DNS name is a letter, a digit or `_`, and the others are these, `.` or `-`.
abbrev pub IsQname : List ℕ → Type 0
IsQname [] = ⊥
IsQname (c ∷ cs) = (qname_head c ≡ true) × All (λ d. qname_tail d ≡ true) cs

-- What a text parameter is: not empty, no longer than its limit, without control characters, one of the
-- choices if there are any; a path begins with a slash, that of a crawl passes its own test, and a
-- DNS name has the form of one.
pub record IsText (workload : String) (p : ParamSpec) (s : String) : Type 0 where
  pub nonempty : s ≢ ""
  pub short : length (codes s) ≤ (if p.name == "path" then 2048 else 253)
  pub printable : All IsPrintable (codes s)
  pub chosen : (p.choices ≡ []) ⊎ (contains p.choices s ≡ true)
  pub path : (p.name == "path") ≡ true → BeginsWith 47 (codes s)
  pub crawl : (workload == "crawl") ≡ true → (p.name == "path") ≡ true → is_crawl_path s ≡ true
  pub query_name : (p.name == "qname") ≡ true → IsQname (codes s)

one_of :
    (choices : List String) (s : String)
    → (is_empty choices || contains choices s) ≡ true
    → (choices ≡ []) ⊎ (contains choices s ≡ true)
unfolding is_empty
one_of [] s h = inl refl
one_of (c ∷ choices) s h = inr h

any-All : (cs : List ℕ) → any is_control cs ≡ false → All IsPrintable cs
unfolding any
any-All [] h = tt
any-All (c ∷ cs) h = ((ground arith, λ e. absurd (ground arith)), any-All cs (ground arith))

slash_first : (cs : List ℕ) → starts_with_slash cs ≡ true → BeginsWith 47 cs
unfolding starts_with_slash
slash_first [] h = absurd (ground arith)
slash_first (c ∷ cs) h = ground arith

all-All : (f : ℕ → Bool) (cs : List ℕ) → all f cs ≡ true → All (λ c. f c ≡ true) cs
unfolding all
all-All f [] h = tt
all-All f (c ∷ cs) h = (ground arith, all-All f cs (ground arith))

qname_lem : (cs : List ℕ) → matches qname_head qname_tail cs ≡ true → IsQname cs
unfolding matches
qname_lem [] h = absurd (ground arith)
qname_lem (c ∷ cs) h = (ground arith, all-All qname_tail cs (ground arith))

strip_left-any :
    (f : ℕ → Bool) (s : String) → any f (codes s) ≡ false → any f (codes (strip_left s)) ≡ false
unfolding strip_left any
strip_left-any f String.[] h = refl
strip_left-any f (String.◌∷◌ c s) h = elim (Bool-cases (is_white (code c))) [
  | inl w ↦ rw w (strip_left-any f s (ground arith))
  | inr w ↦ rw w h
]

strip_right-any :
    (f : ℕ → Bool) (s : String) → any f (codes s) ≡ false → any f (codes (strip_right s)) ≡ false
unfolding strip_right any
strip_right-any f String.[] h = refl
strip_right-any f (String.◌∷◌ c s) h = elim (Bool-cases (all_white (String.◌∷◌ c s))) [
  | inl w ↦ rw w refl
  | inr w ↦ rw w (ground (arith, strip_right-any f s (ground arith)))
]

length-strip_left : (s : String) → length (codes (strip_left s)) ≤ length (codes s)
unfolding strip_left
length-strip_left String.[] = omega arith
length-strip_left (String.◌∷◌ c s) = elim (Bool-cases (is_white (code c))) [
  | inl w ↦ rw w (omega (arith, length-strip_left s))
  | inr w ↦ rw w (omega arith)
]

length-strip_right : (s : String) → length (codes (strip_right s)) ≤ length (codes s)
unfolding strip_right
length-strip_right String.[] = omega arith
length-strip_right (String.◌∷◌ c s) = elim (Bool-cases (all_white (String.◌∷◌ c s))) [
  | inl w ↦ rw w (omega arith)
  | inr w ↦ rw w (omega (arith, length-strip_right s))
]

-- Stripped text is no longer than its limit and has no control characters.
pub clean_text_lem :
    (value : Json) (limit : ℕ) (s : String)
    → clean_text value limit ≡ ok s
    → (length (codes s) ≤ limit) × (any is_control (codes s) ≡ false)
unfolding clean_text
clean_text_lem (Json.string t) limit s h =
    elim (Bool-cases (leb (length (codes t)) limit && not (any is_control (codes t)))) [
      | inr refused ↦ absurd (ground arith)
      | inl good ↦
          let e : strip_right (strip_left t) ≡ s = ground arith in
          subst (λ x. (length (codes x) ≤ limit) × (any is_control (codes x) ≡ false)) e
            (
              ground (arith, length-strip_right (strip_left t), length-strip_left t),
              strip_right-any is_control (strip_left t)
                  (strip_left-any is_control t (ground arith)),
            )
    ]
clean_text_lem Json.null limit s h = cc
clean_text_lem Json.real limit s h = cc
clean_text_lem Json.array limit s h = cc
clean_text_lem (Json.integer n) limit s h = cc
clean_text_lem (boolean b) limit s h = cc
clean_text_lem (object m) limit s h = cc

pub is_admitted-IsText :
    (workload : String) (p : ParamSpec) (s : String)
    → length (codes s) ≤ (if p.name == "path" then 2048 else 253)
    → any is_control (codes s) ≡ false
    → is_admitted workload p s ≡ true
    → IsText workload p s
unfolding is_admitted
is_admitted-IsText workload p s short clean h = record {
  nonempty = λ e. let q : (s == "") ≡ true = (eq_string.beq_iff s "").1 e in absurd (ground arith);
  short = short;
  printable = any-All (codes s) clean;
  chosen = one_of p.choices s (ground arith);
  path = λ e. slash_first (codes s) (ground arith);
  crawl = λ e q. ground arith;
  query_name = λ e. qname_lem (codes s) (ground arith);
}
