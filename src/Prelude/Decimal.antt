-- ===== src/Prelude/Decimal.antt =====
-- `str(n)` of a natural number: it is digits alone, at least one, and they give the number back.
use Prim.Native.Char.{code, char}
use native.Mathlib.Decide.{dec_lt}
use mathlib.Core.Logic.{dite}
use srx.Prelude.{
  ℕ, zero, suc, refl, ap, ◌+◌, ◌/◌, ◌%◌, ◌<◌, ◌≡◌, Bool, true, false, String, List, [], ◌∷◌, arith,
  all, ltb, ltb→lt, inl, inr, Bool-cases,
}
use srx.Prelude.Text.{codes, is_digit, ascii, IsScalar-ascii, digits_from, decimal, digits_value}

abbrev pub digit_first : List ℕ → Bool
digit_first [] = false
digit_first (c ∷ cs) = is_digit c

code-ascii : (n : ℕ) → n < 128 → code (ascii n) ≡ n
unfolding ascii
code-ascii n h =
    elim (dec_lt n 128)
      as (λ x. code (dite x (λ h. char n (IsScalar-ascii n h)) (λ _. char 63 tt)) ≡ n) [
        | yes p ↦ refl
        | no p ↦ absurd (p h)
      ]

module _ (P : List ℕ → Type 0)
    (digit : (d : ℕ) (cs : List ℕ) → d < 10 → P cs → P ((48 + d) ∷ cs)) where
  -- What each digit keeps holds of all that is written.
  digits_from_inv :
      (fuel n : ℕ) (rest : String) → P (codes rest) → P (codes (digits_from fuel n rest))
  unfolding digits_from
  digits_from_inv zero n rest h = h
  digits_from_inv (suc fuel) n rest h = elim (Bool-cases (ltb n 10)) [
    | inl e ↦ rw (e, code-ascii (48 + n) (ground arith)) (digit n (codes rest) (ltb→lt n 10 e) h)
    | inr e ↦ rw e (
        digits_from_inv fuel (n / 10) _ (
          rw (code-ascii (48 + n % 10) (omega arith))
            (digit (n % 10) (codes rest) (omega arith) h)))
  ]

-- `str(n)` is digits.
pub all-decimal : (n : ℕ) → all is_digit (codes (decimal n)) ≡ true
unfolding decimal all
all-decimal n =
    digits_from_inv (λ cs. all is_digit cs ≡ true) (λ d cs h k. ground arith) (suc n) n String.[]
      refl

digits_from_lem :
    (fuel n : ℕ) (rest : String)
    → n < fuel
    → digits_value 0 (codes (digits_from fuel n rest)) ≡ digits_value n (codes rest)
unfolding digits_from digits_value
digits_from_lem zero n rest h = elim h [ ]
digits_from_lem (suc fuel) n rest h = elim (Bool-cases (ltb n 10)) [
  | inl e ↦
      rw (e, code-ascii (48 + n) (ground arith))
        (ap (λ k. digits_value k (codes rest)) (omega arith))
  | inr e ↦
      rw
        (
          e,
          digits_from_lem fuel (n / 10) (String.◌∷◌ (ascii (48 + n % 10)) rest) (ground arith),
          code-ascii (48 + n % 10) (omega arith),
        )
        (ap (λ k. digits_value k (codes rest)) (omega arith))
]

-- The digits of a number give the number.
pub digits_value-decimal : (n : ℕ) → digits_value 0 (codes (decimal n)) ≡ n
unfolding decimal digits_value
digits_value-decimal n = digits_from_lem (suc n) n String.[] (omega arith)

-- `str(n)` begins with a digit.
pub decimal-digit_first : (n : ℕ) → digit_first (codes (decimal n)) ≡ true
unfolding decimal digits_from
decimal-digit_first n = elim (Bool-cases (ltb n 10)) [
  | inl e ↦ rw (e, code-ascii (48 + n) (ground arith)) (ground arith)
  | inr e ↦ rw e (
      digits_from_inv (λ cs. digit_first cs ≡ true) (λ d cs h k. ground arith) n (n / 10) _
        (rw (code-ascii (48 + n % 10) (omega arith)) (ground arith)))
]
