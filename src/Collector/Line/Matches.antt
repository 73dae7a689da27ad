-- ===== src/Collector/Line/Matches.antt =====
-- The regular expressions of the parser at printed pieces, with any rest behind them.
use Prim.Native.Char.{Char, code}
use srx.Prelude.{
  ℕ, zero, suc, ◌≤◌, ◌≡◌, refl, ap, ◌∙◌, inl, inr, Bool, true, false, none, some, String, [], ◌∷◌,
  nat_eq, length, All, arith, Bool-cases,
}
use srx.Prelude.Text.{is_white}
use srx.Collector.{Pairs}
use srx.Collector.Scan.{
  ◌>>=◌, size, is_empty, all_chars, starts, span, span1, span1-append, char_of, char_in,
  size-append, append_assoc, nonempty, ◌++◌,
}
use srx.Collector.Line.{
  is_key, in_sd_id, in_sd_quotes, quoted, unescape, sd_param, sd_params, sd_element,
}
use srx.Collector.Line.Printer.{
  is_special, escape, print_params, Element, print_element, IsPair, IsElement,
}

module _ (bare : ℕ → Bool) where
  quoted-close : (t : String) → quoted bare ("\"" ++ t) ≡ some ("", t)
  unfolding quoted
  quoted-close String.[] = refl
  quoted-close (String.◌∷◌ c t) = refl

  quoted-plain :
      (c : Char) (t : String)
      → nat_eq (code c) b'\\' ≡ false
      → nat_eq (code c) b'"' ≡ false
      → bare (code c) ≡ true
      → quoted bare (String.◌∷◌ c t) ≡ (quoted bare t >>= λ q. some (String.◌∷◌ c q.0, q.1))
  unfolding quoted
  quoted-plain c String.[] h k b = rw k refl
  quoted-plain c (String.◌∷◌ d t) h k b = rw (h, k, b) refl

  quoted-escaped :
      (c : Char) (t : String)
      → is_special (code c) ≡ true
      → quoted bare ("\\" ++ String.◌∷◌ c t)
        ≡ (quoted bare t >>= λ q. some ("\\" ++ String.◌∷◌ c q.0, q.1))
  unfolding quoted
  quoted-escaped c t h = elim (Bool-cases (nat_eq (code c) 10)) [
    | inl e ↦ absurd (ground arith)
    | inr e ↦ rw e refl
  ]

  -- An escaped value is read up to the closing quote.
  pub quoted-escape :
      ((c : ℕ) → is_special c ≡ false → bare c ≡ true)
      → (v rest : String) → quoted bare (escape v ++ ("\"" ++ rest)) ≡ some (escape v, rest)
  unfolding escape
  quoted-escape plain String.[] rest = quoted-close rest
  quoted-escape plain (String.◌∷◌ c v) rest = elim (Bool-cases (is_special (code c))) [
    | inl e ↦ rw e (quoted-escaped c _ e ∙ rw (quoted-escape plain v rest) refl)
    | inr e ↦ rw e (
        quoted-plain c _ (ground arith) (ground arith) (plain (code c) e)
        ∙ rw (quoted-escape plain v rest) refl)
  ]

unescape-plain :
    (c : Char) (t : String)
    → nat_eq (code c) b'\\' ≡ false
    → unescape (String.◌∷◌ c t) ≡ String.◌∷◌ c (unescape t)
unfolding unescape
unescape-plain c String.[] h = refl
unescape-plain c (String.◌∷◌ d t) h = rw h refl

unescape-escaped :
    (c : Char) (t : String)
    → is_special (code c) ≡ true
    → unescape ("\\" ++ String.◌∷◌ c t) ≡ String.◌∷◌ c (unescape t)
unfolding unescape
unescape-escaped c t h = rw h refl

pub unescape-escape : (v : String) → unescape (escape v) ≡ v
unfolding escape
unescape-escape String.[] = unfold unescape in refl
unescape-escape (String.◌∷◌ c v) = elim (Bool-cases (is_special (code c))) [
  | inl e ↦ rw e (unescape-escaped c _ e ∙ ap (String.◌∷◌ c) (unescape-escape v))
  | inr e ↦ rw e (unescape-plain c _ (ground arith) ∙ ap (String.◌∷◌ c) (unescape-escape v))
]

key_not_white : (c : ℕ) → is_key c ≡ true → is_white c ≡ false
unfolding is_white
key_not_white c h = ground arith

pub starts-key :
    (p : ℕ → Bool) (k s : String)
    → ((c : ℕ) → is_key c ≡ true → p c ≡ false)
    → is_empty k ≡ false
    → all_chars is_key k ≡ true
    → starts p (k ++ s) ≡ false
starts-key p String.[] s f n h = cc n
starts-key p (String.◌∷◌ c k) s f n h = f (code c) (ground arith)

-- One parameter, as the parser keeps it.
abbrev pub param_text : String → String → String
param_text k v = " " ++ (k ++ ("=\"" ++ (escape v ++ "\"")))

pub sd_param_lem :
    (k v rest : String)
    → is_empty k ≡ false
    → all_chars is_key k ≡ true
    → sd_param (" " ++ (k ++ ("=\"" ++ (escape v ++ ("\"" ++ rest))))) ≡ some (param_text k v, rest)
unfolding sd_param
sd_param_lem k v rest n h =
    rw
      (
        span1-append is_white " " (k ++ ("=\"" ++ (escape v ++ ("\"" ++ rest)))) refl
            (unfold is_white in refl) (starts-key is_white k _ key_not_white n h),
        span1-append is_key k ("=\"" ++ (escape v ++ ("\"" ++ rest))) n h refl,
      )
      (unfold char_of char_in in rw (quoted-escape in_sd_quotes (λ c e. ground arith) v rest) refl)

sd_param_end : (rest : String) → sd_param ("]" ++ rest) ≡ none
unfolding sd_param span1 span is_white nonempty
sd_param_end rest = refl

param_text-append :
    (k v s : String) → param_text k v ++ s ≡ " " ++ (k ++ ("=\"" ++ (escape v ++ ("\"" ++ s))))
param_text-append k v s = simp append_assoc

pub sd_params-print_params :
    (fuel : ℕ) (ps : Pairs) (rest : String)
    → All IsPair ps
    → length ps ≤ fuel
    → sd_params (suc fuel) (print_params ps rest) ≡ some (print_params ps "", rest)
unfolding sd_params
sd_params-print_params fuel [] rest h l =
    rw (sd_param_end rest, sd_params) (unfold char_of char_in in refl)
sd_params-print_params zero (p ∷ ps) rest h l = absurd (omega arith)
sd_params-print_params (suc fuel) ((k, v) ∷ ps) rest h l =
    rw
      (
        sd_param_lem k v (print_params ps rest) h.0.0 h.0.1,
        sd_params-print_params fuel ps rest h.1 (omega arith),
        sd_params,
      )
      (ap (λ t. some (t, rest)) (param_text-append k v (print_params ps "")))

size-print_params-ge : (ps : Pairs) (rest : String) → length ps ≤ size (print_params ps rest)
size-print_params-ge [] rest = omega arith
size-print_params-ge ((k, v) ∷ ps) rest =
    let tail : String = print_params ps rest in
    omega (
      arith,
      size-print_params-ge ps rest,
      size-append k ("=\"" ++ (escape v ++ ("\"" ++ tail))),
      size-append (escape v) ("\"" ++ tail),
    )

starts-print_params : (ps : Pairs) (rest : String) → starts in_sd_id (print_params ps rest) ≡ false
unfolding is_white
starts-print_params [] rest = refl
starts-print_params ((k, v) ∷ ps) rest = refl

-- `_SD_RE` takes a printed element and leaves what follows.
pub sd_element-print_element :
    (e : Element) (rest : String)
    → IsElement e
    → sd_element (print_element e rest) ≡ some (print_element e "", rest)
unfolding sd_element char_of char_in
sd_element-print_element (id, ps) rest h =
    rw
      (
        span1-append in_sd_id id (print_params ps rest) h.0 h.1 (starts-print_params ps rest),
        sd_params-print_params (size (print_params ps rest)) ps rest h.2
            (size-print_params-ge ps rest),
      )
      refl
