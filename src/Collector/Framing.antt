-- ===== src/Collector/Framing.antt =====
-- The lines of a TCP stream do not depend on how the stream is cut into chunks.
use mathlib.Core.List.{append_assoc, append-nil}
use srx.Prelude.{
  ℕ, zero, suc, ◌≤◌, ◌<◌, ◌≡◌, refl, sym, ap, ◌∙◌, true, false, Option, none, some, List, [], ◌∷◌,
  ◌++◌, length, nat_eq, nat_eq_iff, ◌≢◌, All, Bool-cases, inl, inr, subst, arith,
}
use srx.Collector.{extended, split_line, drain, receive, connection}

abbrev Framed : Type 0
Framed = List (List ℕ) × List ℕ

attach : ℕ → Framed → Framed
attach b ([], left) = ([], b ∷ left)
attach b (l ∷ ls, left) = ((b ∷ l) ∷ ls, left)

-- The lines of a stream and what follows the last newline, by recursion on the bytes.
frames : List ℕ → Framed
unfolding attach
frames [] = ([], [])
frames (b ∷ buf) = elim (nat_eq b 10) [
  | true ↦ ([] ∷ (frames buf).0, (frames buf).1)
  | false ↦ attach b (frames buf)
]

frames_newline :
    (b : ℕ) (buf : List ℕ)
    → nat_eq b 10 ≡ true
    → frames (b ∷ buf) ≡ ([] ∷ (frames buf).0, (frames buf).1)
unfolding frames
frames_newline b buf e = ground arith

frames_byte :
    (b : ℕ) (buf : List ℕ) → nat_eq b 10 ≡ false → frames (b ∷ buf) ≡ attach b (frames buf)
unfolding frames
frames_byte b buf e = rw (e, frames)

split_line_newline :
    (b : ℕ) (buf : List ℕ) → nat_eq b 10 ≡ true → split_line (b ∷ buf) ≡ some ([], buf)
unfolding split_line
split_line_newline b buf e = rw (e, split_line)

split_line_byte :
    (b : ℕ) (buf : List ℕ)
    → nat_eq b 10 ≡ false
    → split_line (b ∷ buf) ≡ extended b (split_line buf)
unfolding split_line
split_line_byte b buf e = rw (e, split_line)

-- What `split_line` returns, against the lines of the buffer.
abbrev IsSplit : List ℕ → Option (List ℕ × List ℕ) → Type 0
IsSplit buf none = frames buf ≡ ([], buf)
IsSplit buf (some (l, rest)) =
    (frames buf ≡ (l ∷ (frames rest).0, (frames rest).1)) × (length rest < length buf)

IsSplit-extended :
    (b : ℕ) (buf : List ℕ) (o : Option (List ℕ × List ℕ))
    → nat_eq b 10 ≡ false
    → IsSplit buf o
    → IsSplit (b ∷ buf) (extended b o)
unfolding extended attach
IsSplit-extended b buf none e h = frames_byte b buf e ∙ ap (attach b) h
IsSplit-extended b buf (some (l, rest)) e h =
    (frames_byte b buf e ∙ ap (attach b) h.0, omega (arith, h.1))

split_line-IsSplit : (buf : List ℕ) → IsSplit buf (split_line buf)
split_line-IsSplit [] = unfold split_line frames in refl
split_line-IsSplit (b ∷ buf) = elim (Bool-cases (nat_eq b 10)) [
  | inl e ↦
      subst (IsSplit (b ∷ buf)) (sym (split_line_newline b buf e))
        (frames_newline b buf e, omega arith)
  | inr e ↦
      subst (IsSplit (b ∷ buf)) (sym (split_line_byte b buf e))
        (IsSplit-extended b buf (split_line buf) e (split_line-IsSplit buf))
]

-- One more line in front.
abbrev with_line : List ℕ → Framed → Framed
with_line l r = (l ∷ r.0, r.1)

round :
    (buf : List ℕ) (fuel : ℕ) (o : Option (List ℕ × List ℕ))
    → ((rest : List ℕ) → length rest ≤ fuel → drain fuel rest ≡ frames rest)
    → length buf ≤ suc fuel
    → IsSplit buf o
    → Path Framed
        (elim o [
          | none ↦ ([], buf)
          | some (l, rest) ↦ let (ls, left) = drain fuel rest in (l ∷ ls, left)
        ])
        (frames buf)
round buf fuel none ih h e = sym e
round buf fuel (some (l, rest)) ih h e = ap (with_line l) (ih rest (omega (arith, e.1))) ∙ sym e.0

drain-eq-frames : (fuel : ℕ) (buf : List ℕ) → length buf ≤ fuel → drain fuel buf ≡ frames buf
unfolding drain
drain-eq-frames zero [] h = unfold frames in refl
drain-eq-frames zero (b ∷ buf) h = absurd (omega arith)
drain-eq-frames (suc fuel) buf h =
    round buf fuel (split_line buf) (drain-eq-frames fuel) h (split_line-IsSplit buf)

-- A stream whose first part is framed already.
resume : Framed → List ℕ → Framed
resume (ls, left) ys = (ls ++ (frames (left ++ ys)).0, (frames (left ++ ys)).1)

attach-resume :
    (b : ℕ) (r : Framed) (ys : List ℕ)
    → nat_eq b 10 ≡ false
    → attach b (resume r ys) ≡ resume (attach b r) ys
unfolding attach resume
attach-resume b ([], left) ys e = sym (frames_byte b (left ++ ys) e)
attach-resume b (l ∷ ls, left) ys e = refl

-- The bytes before the last newline come out as lines, whatever follows them.
frames-append : (xs ys : List ℕ) → frames (xs ++ ys) ≡ resume (frames xs) ys
frames-append [] ys = unfold frames resume in refl
frames-append (b ∷ xs) ys = elim (Bool-cases (nat_eq b 10)) [
  | inl e ↦
      frames_newline b (xs ++ ys) e
      ∙ (ap (with_line []) (frames-append xs ys)
          ∙ unfold resume in ap (λ r. resume r ys) (sym (frames_newline b xs e)))
  | inr e ↦
      frames_byte b (xs ++ ys) e
      ∙ (ap (attach b) (frames-append xs ys)
          ∙ (attach-resume b (frames xs) ys e ∙ ap (λ r. resume r ys) (sym (frames_byte b xs e))))
]

-- What follows the last newline holds no newline.
attach-rest :
    (b : ℕ) (r : Framed)
    → nat_eq b 10 ≡ false
    → frames r.1 ≡ ([], r.1)
    → frames (attach b r).1 ≡ ([], (attach b r).1)
unfolding attach
attach-rest b ([], left) e h = frames_byte b left e ∙ ap (attach b) h
attach-rest b (l ∷ ls, left) e h = h

frames-rest : (xs : List ℕ) → frames (frames xs).1 ≡ ([], (frames xs).1)
frames-rest [] = unfold frames in refl
frames-rest (b ∷ xs) = elim (Bool-cases (nat_eq b 10)) [
  | inl e ↦ rw (frames_newline b xs e) (frames-rest xs)
  | inr e ↦ rw (frames_byte b xs e) (attach-rest b (frames xs) e (frames-rest xs))
]

receive-eq-frames : (buf chunk : List ℕ) → receive buf chunk ≡ frames (buf ++ chunk)
unfolding receive
receive-eq-frames buf chunk = drain-eq-frames _ (buf ++ chunk) (omega arith)

abbrev pub stream : List (List ℕ) → List ℕ
stream [] = []
stream (chunk ∷ chunks) = chunk ++ stream chunks

connection-eq-frames :
    (buf : List ℕ) (chunks : List (List ℕ))
    → frames buf ≡ ([], buf)
    → connection buf chunks ≡ frames (buf ++ stream chunks)
unfolding connection
connection-eq-frames buf [] h = sym (rw (append-nil buf) h)
connection-eq-frames buf (chunk ∷ chunks) h = rw (receive-eq-frames buf chunk) (
    ap (λ (r : Framed). ((frames (buf ++ chunk)).0 ++ r.0, r.1))
      (connection-eq-frames (frames (buf ++ chunk)).1 chunks (frames-rest (buf ++ chunk)))
    ∙ (unfold resume in
        sym (frames-append (buf ++ chunk) (stream chunks))
        ∙ ap frames (append_assoc buf chunk (stream chunks))))

-- Two connections that carry the same bytes hand on the same lines and keep the same rest, however
-- the bytes were cut into chunks.
pub connection_chunking :
    (cs ds : List (List ℕ)) → stream cs ≡ stream ds → connection [] cs ≡ connection [] ds
connection_chunking cs ds h =
    connection-eq-frames [] cs nothing ∙ (ap frames h ∙ sym (connection-eq-frames [] ds nothing))
  where
    nothing : frames [] ≡ ([], [])
    nothing = unfold frames in refl

-- The lines, each with its newline, and the rest.
abbrev pub rejoin : List (List ℕ) → List ℕ → List ℕ
rejoin [] left = left
rejoin (l ∷ ls) left = l ++ 10 ∷ rejoin ls left

abbrev pub IsOneLine : List ℕ → Type 0
IsOneLine l = All (λ b. b ≢ 10) l

abbrev IsLossless : List ℕ → Framed → Type 0
IsLossless xs (ls, left) = (rejoin ls left ≡ xs) × All IsOneLine ls × IsOneLine left

attach-IsLossless :
    (b : ℕ) (xs : List ℕ) (r : Framed)
    → nat_eq b 10 ≡ false
    → IsLossless xs r
    → IsLossless (b ∷ xs) (attach b r)
unfolding attach
attach-IsLossless b xs ([], left) e h = (ap (◌∷◌ b) h.0, tt, ((λ q. ground arith), h.2))
attach-IsLossless b xs (l ∷ ls, left) e h =
    (ap (◌∷◌ b) h.0, (((λ q. ground arith), h.1.0), h.1.1), h.2)

frames-IsLossless : (xs : List ℕ) → IsLossless xs (frames xs)
frames-IsLossless [] = unfold frames in (refl, tt, tt)
frames-IsLossless (b ∷ xs) = elim (Bool-cases (nat_eq b 10)) [
  | inl e ↦
      let h = frames-IsLossless xs in
      rw (frames_newline b xs e) (cc (h.0, (nat_eq_iff b 10).0 e), (tt, h.1), h.2)
  | inr e ↦ rw (frames_byte b xs e) (attach-IsLossless b xs (frames xs) e (frames-IsLossless xs))
]

-- Nothing is lost: the lines that were handed on, each with its newline, and the rest make up the
-- bytes that were received, and neither a line nor the rest holds a newline.
pub connection_lossless :
    (chunks : List (List ℕ))
    → (rejoin (connection [] chunks).0 (connection [] chunks).1 ≡ stream chunks)
      × All IsOneLine (connection [] chunks).0
      × IsOneLine (connection [] chunks).1
connection_lossless chunks =
    rw (connection-eq-frames [] chunks (unfold frames in refl)) (frames-IsLossless (stream chunks))
