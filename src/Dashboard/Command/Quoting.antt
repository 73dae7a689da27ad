-- ===== src/Dashboard/Command/Quoting.antt =====
-- What the shell of the client reads is what `make_cmd` was given.
use srx.Prelude.{
  ℕ, ◌≡◌, refl, sym, ap, ◌∙◌, inl, inr, true, false, Option, none, some, List, [], ◌∷◌, ◌++◌, map,
  all, nat_eq, nat_eq_iff, Bool-cases, eq_string, arith,
}
use mathlib.Core.List.{append_assoc, append-nil}
use srx.Prelude.Text.{codes}
use srx.Dashboard.Command.{Text, is_safe, requoted, quote, joined, Config, remote_cmd}
use srx.Dashboard.Command.Shell.{
  Token, word, and_if, Mode, between, plain, single, Reader, is_literal, step, read, finished,
  start, shell_words,
}

abbrev at : List Token → Mode → Option Reader
at ts m = some (record { tokens = ts; mode = m })

read-none : (cs : Text) → read none cs ≡ none
unfolding read
read-none [] = refl
read-none (c ∷ cs) = refl

read-append : (r : Option Reader) (xs ys : Text) → read r (xs ++ ys) ≡ read (read r xs) ys
unfolding read
read-append r [] ys = refl
read-append none (c ∷ xs) ys = sym (read-none ys)
read-append (some r) (c ∷ xs) ys = read-append (step r c) xs ys

step-plain :
    (ts : List Token) (w : Text) (c : ℕ)
    → is_safe c ≡ true
    → step (record { tokens = ts; mode = plain w }) c ≡ at ts (plain (w ++ c ∷ []))
unfolding step is_safe
step-plain ts w c h = ground arith

step-between :
    (ts : List Token) (c : ℕ)
    → is_safe c ≡ true
    → step (record { tokens = ts; mode = between }) c ≡ at ts (plain (c ∷ []))
unfolding step is_safe
step-between ts c h = ground arith

step-single :
    (ts : List Token) (w : Text) (c : ℕ)
    → nat_eq c 39 ≡ false
    → step (record { tokens = ts; mode = single w }) c ≡ at ts (single (w ++ c ∷ []))
unfolding step
step-single ts w c h = rw h refl

read-plain :
    (ts : List Token) (w s : Text)
    → all is_safe s ≡ true
    → read (at ts (plain w)) s ≡ at ts (plain (w ++ s))
unfolding read all
read-plain ts w [] h = rw (append-nil w)
read-plain ts w (c ∷ s) h = elim (Bool-cases (is_safe c)) [
  | inl safe ↦ rw (step-plain ts w c safe) (
      read-plain ts (w ++ c ∷ []) s (rw safe at h)
      ∙ ap (λ x. at ts (plain x)) (append_assoc w (c ∷ []) s))
  | inr unsafe ↦ absurd (cc (rw unsafe at h))
]

-- A quote inside the text leaves the single quotes and comes back to them.
read_escape :
    (ts : List Token) (w rest : Text)
    → read (at ts (single w)) (39 ∷ 34 ∷ 39 ∷ 34 ∷ 39 ∷ rest)
      ≡ read (at ts (single (w ++ 39 ∷ []))) rest
unfolding read step
read_escape ts w rest = refl

read_open :
    (ts : List Token) (rest : Text)
    → read (at ts between) (39 ∷ rest) ≡ read (at ts (single [])) rest
unfolding read step
read_open ts rest = refl

read_close : (ts : List Token) (w : Text) → read (at ts (single w)) (39 ∷ []) ≡ at ts (plain w)
unfolding read step
read_close ts w = refl

read-requoted :
    (ts : List Token) (w s : Text) → read (at ts (single w)) (requoted s) ≡ at ts (single (w ++ s))
unfolding read requoted
read-requoted ts w [] = rw (append-nil w)
read-requoted ts w (c ∷ s) = elim (Bool-cases (nat_eq c 39)) [
  | inl q ↦ rw q (
      rw ((nat_eq_iff c 39).0 q) (
        read_escape ts w (requoted s)
        ∙ (read-requoted ts (w ++ 39 ∷ []) s
            ∙ ap (λ x. at ts (single x)) (append_assoc w (39 ∷ []) s))))
  | inr q ↦ rw q (
      rw (step-single ts w c q)
        (read-requoted ts (w ++ c ∷ []) s ∙ ap (λ x. at ts (single x)) (append_assoc w (c ∷ []) s)))
]

read_safe :
    (ts : List Token) (c : ℕ) (s : Text)
    → all is_safe (c ∷ s) ≡ true
    → read (at ts between) (c ∷ s) ≡ at ts (plain (c ∷ s))
unfolding read all
read_safe ts c s h = elim (Bool-cases (is_safe c)) [
  | inl safe ↦ rw (step-between ts c safe) (read-plain ts (c ∷ []) s (rw safe at h))
  | inr unsafe ↦ absurd (cc (rw unsafe at h))
]

-- A quoted text is read as one word, whatever characters it has.
read-quote : (ts : List Token) (s : Text) → read (at ts between) (quote s) ≡ at ts (plain s)
unfolding quote
read-quote ts [] = read_open ts (39 ∷ []) ∙ read_close ts []
read-quote ts (c ∷ s) = elim (Bool-cases (all is_safe (c ∷ s))) [
  | inl safe ↦ rw safe (read_safe ts c s safe)
  | inr q ↦ rw q (
      read_open ts (requoted (c ∷ s) ++ 39 ∷ [])
      ∙ (read-append (at ts (single [])) (requoted (c ∷ s)) (39 ∷ [])
          ∙ (ap (λ r. read r (39 ∷ [])) (read-requoted ts [] (c ∷ s)) ∙ read_close ts (c ∷ s))))
]

read_blank :
    (ts : List Token) (w rest : Text)
    → read (at ts (plain w)) (32 ∷ rest) ≡ read (at (ts ++ word w ∷ []) between) rest
unfolding read step
read_blank ts w rest = refl

finished-plain :
    (ts : List Token) (w : Text) → finished (at ts (plain w)) ≡ some (ts ++ word w ∷ [])
unfolding finished
finished-plain ts w = refl

-- Quoted arguments with blanks between them are read as these arguments.
read-joined :
    (ts : List Token) (a : Text) (argv : List Text)
    → finished (read (at ts between) (joined (a ∷ argv))) ≡ some (ts ++ map word (a ∷ argv))
unfolding joined
read-joined ts a [] = rw (read-quote ts a) (finished-plain ts a)
read-joined ts a (b ∷ argv) =
    rw
      (
        read-append (at ts between) (quote a) (32 ∷ joined (b ∷ argv)),
        read-quote ts a,
        read_blank ts a (joined (b ∷ argv)),
        read-joined (ts ++ word a ∷ []) b argv,
      )
      (ap some (append_assoc ts (word a ∷ []) (map word (b ∷ argv))))

read_cd :
    (s rest : Text)
    → read (some start) (codes "cd " ++ (quote s ++ (codes " && exec " ++ rest)))
      ≡ read (at (word (codes "cd") ∷ word s ∷ and_if ∷ word (codes "exec") ∷ []) between) rest
read_cd s rest =
    read-append (some start) (codes "cd ") (quote s ++ (codes " && exec " ++ rest))
    ∙ (ap (λ r. read r (quote s ++ (codes " && exec " ++ rest))) begin
        ∙ (read-append (at (word (codes "cd") ∷ []) between) (quote s) (codes " && exec " ++ rest)
            ∙ (ap (λ r. read r (codes " && exec " ++ rest)) (read-quote (word (codes "cd") ∷ []) s)
                ∙ connect)))
  where
    begin : read (some start) (codes "cd ") ≡ at (word (codes "cd") ∷ []) between
    begin = unfold read step in refl

    connect :
        read (at (word (codes "cd") ∷ []) (plain s)) (codes " && exec " ++ rest)
        ≡ read (at (word (codes "cd") ∷ word s ∷ and_if ∷ word (codes "exec") ∷ []) between) rest
    connect = unfold read step is_literal in refl

-- The shell reads the line that is sent as `cd`, the directory, `&&`, `exec` and then the arguments,
-- one word for each.
pub shell_words-remote_cmd :
    (c : Config) (a : Text) (argv : List Text)
    → shell_words (remote_cmd c (a ∷ argv))
      ≡ some (
          word (codes "cd")
          ∷ word (codes c.client_repo)
          ∷ and_if
          ∷ word (codes "exec")
          ∷ map word (a ∷ argv))
unfolding shell_words remote_cmd
shell_words-remote_cmd c a argv = rw (read_cd (codes c.client_repo) (joined (a ∷ argv))) (
    read-joined (word (codes "cd") ∷ word (codes c.client_repo) ∷ and_if ∷ word (codes "exec") ∷ [])
      a argv)
