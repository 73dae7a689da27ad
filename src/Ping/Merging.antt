-- ===== src/Ping/Merging.antt =====
-- The counts of a series and of the summary, and the quiet window.
use srx.Prelude.{
  ℕ, zero, suc, ◌+◌, ◌≤◌, ◌<◌, ◌≡◌, refl, ap, ◌↔◌, ◌⊎◌, inl, inr, true, List, [], ◌∷◌, ◌++◌, leb,
  length, length-drop, take, drop, take-append-drop, Bool-cases, arith,
}
use srx.Ping.{
  Floats, Point, in_window, in_quiet_hours, total_sent, total_recv, merged, merge_chunks,
  downsample_series,
}

-- Probing pauses exactly from 23:59 on and before 8:00.
pub in_quiet_hours_iff :
    (hour minute : ℕ)
    → hour < 24
    → minute < 60
    → (in_quiet_hours hour minute ≡ true) ↔ ((hour < 8) ⊎ ((hour ≡ 23) × (minute ≡ 59)))
unfolding in_quiet_hours in_window
in_quiet_hours_iff hour minute h m = (λ q. ground arith, λ q. ground arith)

module _ {R : Type 0} ⦃f : Floats R⦄ where
  total_sent-append :
      (xs ys : List (Point R)) → total_sent (xs ++ ys) ≡ total_sent xs + total_sent ys
  unfolding total_sent
  total_sent-append [] ys = omega arith
  total_sent-append (x ∷ xs) ys = omega (arith, total_sent-append xs ys)

  total_recv-append :
      (xs ys : List (Point R)) → total_recv (xs ++ ys) ≡ total_recv xs + total_recv ys
  unfolding total_recv
  total_recv-append [] ys = omega arith
  total_recv-append (x ∷ xs) ys = omega (arith, total_recv-append xs ys)

  merge_chunks-sent :
      (fuel k : ℕ) (ser : List (Point R))
      → length ser ≤ fuel
      → total_sent (merge_chunks fuel (suc k) ser) ≡ total_sent ser
  unfolding total_sent merge_chunks merged
  merge_chunks-sent zero k [] h = refl
  merge_chunks-sent zero k (p ∷ ser) h = absurd (omega arith)
  merge_chunks-sent (suc fuel) k [] h = refl
  merge_chunks-sent (suc fuel) k (p ∷ ser) h = omega (
    arith,
    merge_chunks-sent fuel k (drop k ser) (omega (arith, length-drop k ser)),
    total_sent-append (take k ser) (drop k ser),
    ap total_sent (take-append-drop k ser),
  )

  merge_chunks-recv :
      (fuel k : ℕ) (ser : List (Point R))
      → length ser ≤ fuel
      → total_recv (merge_chunks fuel (suc k) ser) ≡ total_recv ser
  unfolding total_recv merge_chunks merged
  merge_chunks-recv zero k [] h = refl
  merge_chunks-recv zero k (p ∷ ser) h = absurd (omega arith)
  merge_chunks-recv (suc fuel) k [] h = refl
  merge_chunks-recv (suc fuel) k (p ∷ ser) h = omega (
    arith,
    merge_chunks-recv fuel k (drop k ser) (omega (arith, length-drop k ser)),
    total_recv-append (take k ser) (drop k ser),
    ap total_recv (take-append-drop k ser),
  )

  -- Merging the buckets of a chart loses no probe: whatever the factor, the probes sent and the answers
  -- received add up to what the series had.
  pub downsample_series-total :
      (ser : List (Point R)) (factor : ℕ)
      → (total_sent (downsample_series ser factor) ≡ total_sent ser)
        × (total_recv (downsample_series ser factor) ≡ total_recv ser)
  unfolding downsample_series
  downsample_series-total ser zero = (refl, refl)
  downsample_series-total ser (suc k) = elim (Bool-cases (leb (suc k) 1)) [
    | inl few ↦ rw few (refl, refl)
    | inr many ↦ rw many (
      merge_chunks-sent (length ser) k ser (omega arith),
      merge_chunks-recv (length ser) k ser (omega arith),
    )
  ]
