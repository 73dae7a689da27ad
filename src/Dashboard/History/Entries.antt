-- ===== src/Dashboard/History/Entries.antt =====
-- What `record_batch` adds to the history, and what the history keeps.
use mathlib.Core.List.{append_assoc, append-nil}
use srx.Prelude.{
  ℕ, zero, suc, ◌+◌, ◌-◌, ◌≤◌, ◌≡◌, refl, sym, ap, ◌∙◌, inl, inr, Bool, true, false, List, [], ◌∷◌,
  ◌++◌, map, leb, drop, length, length-append, length-drop, Bool-cases, arith,
}
use srx.Dashboard.Run.{Run}
use srx.Dashboard.History.{Text, Entry, entry_of, trim, record_batch}

-- The newest entries, at most so many.
abbrev pub newest : ℕ → List Entry → List Entry
newest limit hist = drop (length hist - limit) hist

trim_lem :
    (fuel limit : ℕ) (hist : List Entry)
    → length hist ≤ fuel + limit
    → trim fuel limit hist ≡ newest limit hist
unfolding trim
trim_lem zero limit hist h = ap (λ k. drop k hist) {x = 0} (omega arith)
trim_lem (suc fuel) limit hist h = elim (Bool-cases (leb (length hist) limit)) [
  | inl fits ↦ rw fits (ap (λ k. drop k hist) {x = 0} (ground arith))
  | inr over ↦ rw over (shorter hist h over (trim_lem fuel limit (drop 1 hist)))
]
  where
    shorter :
        (hist : List Entry)
        → length hist ≤ suc fuel + limit
        → leb (length hist) limit ≡ false
        → (length (drop 1 hist) ≤ fuel + limit
            → trim fuel limit (drop 1 hist) ≡ newest limit (drop 1 hist))
        → trim fuel limit (drop 1 hist) ≡ newest limit hist
    shorter [] h over ih = absurd (ground arith)
    shorter (e ∷ hist) h over ih =
        ih (omega arith)
        ∙ ap (λ k. drop k (e ∷ hist)) {x = suc (length hist - limit)} (ground arith)

drop-nil : (n : ℕ) → drop {A = Entry} n [] ≡ []
drop-nil zero = refl
drop-nil (suc n) = refl

drop-drop : (m n : ℕ) (hist : List Entry) → drop m (drop n hist) ≡ drop (n + m) hist
drop-drop m zero hist = ap (λ k. drop k hist) {x = m} (omega arith)
drop-drop m (suc n) [] = drop-nil m ∙ sym (drop-nil (suc n + m))
drop-drop m (suc n) (e ∷ hist) =
    drop-drop m n hist ∙ ap (λ k. drop k (e ∷ hist)) {x = suc (n + m)} (omega arith)

drop-append_le : (n : ℕ) (xs ys : List Entry) → n ≤ length xs → drop n (xs ++ ys) ≡ drop n xs ++ ys
drop-append_le zero xs ys h = refl
drop-append_le (suc n) [] ys h = elim h [ ]
drop-append_le (suc n) (x ∷ xs) ys h = drop-append_le n xs ys (omega arith)

-- The entry of a batch and the time at which it is recorded.
abbrev pub made : ℕ × Run → Entry
made (now, r) = entry_of now r

-- The history after a series of batches.
unfoldable pub record_all : ℕ → List Entry → List (ℕ × Run) → List Entry
record_all limit hist [] = hist
record_all limit hist ((now, r) ∷ runs) =
    record_all limit (record_batch true limit now hist r).0 runs

-- One more entry behind the newest ones.
newest-newest :
    (limit : ℕ) (xs ys : List Entry)
    → newest limit (newest limit xs ++ ys) ≡ newest limit (xs ++ ys)
newest-newest limit xs ys =
    ap (newest limit) (sym (drop-append_le (length xs - limit) xs ys (omega arith)))
    ∙ (drop-drop _ (length xs - limit) (xs ++ ys)
        ∙ ap (λ k. drop k (xs ++ ys))
            (omega (arith, length-drop (length xs - limit) (xs ++ ys), length-append xs ys)))

length-newest-le : (limit : ℕ) (xs : List Entry) → length (newest limit xs) ≤ limit
length-newest-le limit xs = omega (arith, length-drop (length xs - limit) xs)

record_batch-newest :
    (saved : Bool) (limit now : ℕ) (hist : List Entry) (run : Run)
    → (record_batch saved limit now hist run).0 ≡ newest limit (hist ++ entry_of now run ∷ [])
unfolding record_batch
record_batch-newest saved limit now hist run =
    trim_lem (length (hist ++ entry_of now run ∷ [])) limit (hist ++ entry_of now run ∷ [])
      (omega arith)

-- After a series of batches the history holds the newest entries, as many as the limit admits: the last of
-- the entries that it started with and then one entry for each batch, in order.
pub record_all-newest :
    (limit : ℕ) (runs : List (ℕ × Run)) (hist : List Entry)
    → length hist ≤ limit
    → record_all limit hist runs ≡ newest limit (hist ++ map made runs)
unfolding record_all
record_all-newest limit [] hist h =
    sym (append-nil hist)
    ∙ ap (λ k. drop k (hist ++ [])) {x = 0} (omega (arith, length-append hist []))
record_all-newest limit ((now, r) ∷ runs) hist h =
    let grown = hist ++ entry_of now r ∷ [] in
    ap (λ l. record_all limit l runs) (record_batch-newest true limit now hist r)
    ∙ (record_all-newest limit runs (newest limit grown) (length-newest-le limit grown)
        ∙ (newest-newest limit grown (map made runs)
            ∙ ap (newest limit) (append_assoc hist (entry_of now r ∷ []) (map made runs))))
