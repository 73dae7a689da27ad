-- ===== src/Correlator/Ranking.antt =====
-- The order of the candidates: what `correlate` returns among the events that match.
use mathlib.Core.List.Perm
use mathlib.Core.List.{Perm}
use native.Mathlib.Nat.{le_trans, le_of_lt}
use srx.Prelude.{
  ℕ, ◌≤◌, ◌<◌, ◌≡◌, refl, ap, inl, inr, Bool, true, false, Option, none, some, List, [], ◌∷◌, ◌++◌,
  leb, leb→le, All, All-append, All-imp, keep, nat_eq, ◌∙◌, Bool-cases, arith, if◌then◌else◌,
}
use srx.Telemetry.{Stimulus, TelemetryEvent}
use srx.Correlator.{Correlator, is_candidate, key, insert_by, sort_by, candidates, first, correlate}

module _ {A : Type 0} (rank : A → ℕ) where
  -- Each entry ranks no higher than those behind it.
  abbrev pub IsAscending : List A → Type 0
  IsAscending [] = Unit {0}
  IsAscending (x ∷ xs) = All (λ y. rank x ≤ rank y) xs × IsAscending xs

  insert_by-perm : (x : A) (xs : List A) → Perm (insert_by rank x xs) (x ∷ xs)
  unfolding insert_by
  insert_by-perm x [] = Perm.refl (x ∷ [])
  insert_by-perm x (y ∷ ys) = elim (Bool-cases (leb (rank x) (rank y))) [
    | inl e ↦ rw e (Perm.refl (x ∷ y ∷ ys))
    | inr e ↦ rw e (Perm.trans (Perm.cons y (insert_by-perm x ys)) (Perm.swap x y ys))
  ]

  pub sort_by-perm : (xs : List A) → Perm (sort_by rank xs) xs
  unfolding sort_by
  sort_by-perm [] = Perm.refl []
  sort_by-perm (x ∷ xs) =
      Perm.trans (insert_by-perm x (sort_by rank xs)) (Perm.cons x (sort_by-perm xs))

  insert_by-All :
      (k : ℕ) (x : A) (ys : List A)
      → k ≤ rank x
      → All (λ y. k ≤ rank y) ys
      → All (λ y. k ≤ rank y) (insert_by rank x ys)
  unfolding insert_by
  insert_by-All k x [] h a = (h, tt)
  insert_by-All k x (y ∷ ys) h a = ground (arith, insert_by-All k x ys h a.1)

  raise_bound :
      (j k : ℕ) (ys : List A) → j ≤ k → All (λ y. k ≤ rank y) ys → All (λ y. j ≤ rank y) ys
  raise_bound j k [] h a = tt
  raise_bound j k (y ∷ ys) h a = (omega arith, raise_bound j k ys h a.1)

  insert_by-IsAscending : (x : A) (ys : List A) → IsAscending ys → IsAscending (insert_by rank x ys)
  unfolding insert_by
  insert_by-IsAscending x [] s = (tt, tt)
  insert_by-IsAscending x (y ∷ ys) s = elim (Bool-cases (leb (rank x) (rank y))) [
    | inl e ↦ rw e ((leb→le _ _ e, raise_bound (rank x) (rank y) ys (leb→le _ _ e) s.0), s)
    | inr e ↦ rw e (insert_by-All (rank y) x ys (ground arith) s.0, insert_by-IsAscending x ys s.1)
  ]

  pub sort_by-IsAscending : (xs : List A) → IsAscending (sort_by rank xs)
  unfolding sort_by
  sort_by-IsAscending [] = tt
  sort_by-IsAscending (x ∷ xs) = insert_by-IsAscending x (sort_by rank xs) (sort_by-IsAscending xs)

  abbrev ranked : ℕ → A → Bool
  ranked k y = nat_eq (rank y) k

  insert_by_stable :
      (k : ℕ) (x : A) (ys : List A)
      → keep (ranked k) (insert_by rank x ys) ≡ keep (ranked k) (x ∷ ys)
  unfolding insert_by keep
  insert_by_stable k x [] = refl
  insert_by_stable k x (y ∷ ys) = elim (Bool-cases (leb (rank x) (rank y))) [
    | inl e ↦ rw e refl
    | inr e ↦ rw e (ground (arith, insert_by_stable k x ys))
  ]

  -- The sort is stable: the entries of one rank keep their order.
  pub sort_by_stable :
      (k : ℕ) (xs : List A)
      → keep (λ y. nat_eq (rank y) k) (sort_by rank xs) ≡ keep (λ y. nat_eq (rank y) k) xs
  unfolding sort_by keep
  sort_by_stable k [] = refl
  sort_by_stable k (x ∷ xs) =
      insert_by_stable k x (sort_by rank xs) ∙ ground (arith, sort_by_stable k xs)

  better : A → Option A → Option A
  better x none = some x
  better x (some y) = if leb (rank x) (rank y) then some x else some y

  first-insert_by : (x : A) (ys : List A) → first (insert_by rank x ys) ≡ better x (first ys)
  unfolding insert_by better
  first-insert_by x [] = refl
  first-insert_by x (y ∷ ys) = ground arith

  module _ (test : A → Bool) where
    -- `e` passes the test, no entry that passes ranks below it, and none before it ranks the same.
    pub record IsNearest (xs : List A) (e : A) : Type 0 where
      pub before : List A
      pub after : List A
      pub place : xs ≡ before ++ e ∷ after
      pub passes : test e ≡ true
      pub farther : All (λ x. test x ≡ true → rank e < rank x) before
      pub not_nearer : All (λ x. test x ≡ true → rank e ≤ rank x) after

    abbrev pub IsWinner : List A → Option A → Type 0
    IsWinner xs none = All (λ x. test x ≡ false) xs
    IsWinner xs (some e) = IsNearest xs e

    bounds-All :
        (k : ℕ) (xs : List A) (e : A)
        → k ≤ rank e
        → IsNearest xs e
        → All (λ x. test x ≡ true → k ≤ rank x) xs
    bounds-All k xs e h n = rw n.place (
        All-append (λ x. test x ≡ true → k ≤ rank x) n.before (e ∷ n.after)
          (All-imp _ (λ x. test x ≡ true → k ≤ rank x) n.before
            (λ x f t. le_trans h (le_of_lt (f t))) n.farther)
          (
            λ _. h,
            All-imp _ (λ x. test x ≡ true → k ≤ rank x) n.after (λ x f t. le_trans h (f t))
                n.not_nearer,
          ))

    extend :
        (x : A) (xs : List A) (e : A)
        → (test x ≡ true → rank e < rank x)
        → IsNearest xs e
        → IsNearest (x ∷ xs) e
    extend x xs e h n = record {
      before = x ∷ n.before;
      after = n.after;
      place = ap (◌∷◌ x) n.place;
      passes = n.passes;
      farther = (h, n.farther);
      not_nearer = n.not_nearer;
    }

    skip :
        (x : A) (xs : List A) (o : Option A) → test x ≡ false → IsWinner xs o → IsWinner (x ∷ xs) o
    skip x xs none f w = (f, w)
    skip x xs (some e) f n = extend x xs e (λ t. cc) n

    meet :
        (x : A) (xs : List A) (o : Option A)
        → test x ≡ true
        → IsWinner xs o
        → IsWinner (x ∷ xs) (better x o)
    unfolding better
    meet x xs none t w = record {
      before = [];
      after = xs;
      place = refl;
      passes = t;
      farther = tt;
      not_nearer = All-imp _ (λ y. test y ≡ true → rank x ≤ rank y) xs (λ y f g. cc) w;
    }
    meet x xs (some e) t n = elim (Bool-cases (leb (rank x) (rank e))) [
      | inl near ↦ rw near (record {
        before = [];
        after = xs;
        place = refl;
        passes = t;
        farther = tt;
        not_nearer = bounds-All (rank x) xs e (leb→le _ _ near) n;
      })
      | inr far ↦ rw far (extend x xs e (λ _. ground arith) n)
    ]

    pub first-sort_by-IsWinner : (xs : List A) → IsWinner xs (first (sort_by rank (keep test xs)))
    unfolding sort_by keep
    first-sort_by-IsWinner [] = tt
    first-sort_by-IsWinner (x ∷ xs) = elim (Bool-cases (test x)) [
      | inl t ↦ rw t (
          rw (first-insert_by x (sort_by rank (keep test xs)))
            (meet x xs _ t (first-sort_by-IsWinner xs)))
      | inr f ↦ rw f (skip x xs _ f (first-sort_by-IsWinner xs))
    ]

module _ (c : Correlator) (stimulus : Stimulus) (events : List TelemetryEvent) where
  -- The candidates are the events that match in type, tuple and time window, each as often as it was
  -- collected, with the least distance in time first and events of one distance in input order.
  pub candidates_sorted :
      Perm (candidates c stimulus events) (keep (is_candidate c stimulus) events)
      × IsAscending (key stimulus) (candidates c stimulus events)
      × ((d : ℕ)
          → keep (λ e. nat_eq (key stimulus e) d) (candidates c stimulus events)
            ≡ keep (λ e. nat_eq (key stimulus e) d) (keep (is_candidate c stimulus) events))
  unfolding candidates
  candidates_sorted = (
    sort_by-perm (key stimulus) _,
    sort_by-IsAscending (key stimulus) _,
    λ d. sort_by_stable (key stimulus) d _,
  )

  -- `correlate` returns the event that matches at the least distance in time, the first in input
  -- order of those at that distance, and None exactly if no event matches.
  pub correlate-IsWinner :
      IsWinner (key stimulus) (is_candidate c stimulus) events (correlate c stimulus events)
  unfolding correlate candidates
  correlate-IsWinner = first-sort_by-IsWinner (key stimulus) (is_candidate c stimulus) events
