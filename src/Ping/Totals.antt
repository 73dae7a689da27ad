-- ===== src/Ping/Totals.antt =====
-- The counts of a summary, against the probes that were made.
use srx.Prelude.{
  ℕ, zero, suc, ◌+◌, ◌-◌, ◌*◌, ◌≤◌, ◌≡◌, refl, ap, inl, inr, Bool, not, Option, none, some, List,
  [], ◌∷◌, ◌++◌, map, keep, ltb, length, drop, All, All-append, Bool-cases, arith,
}
use srx.Collector.Buffer.{newest}
use srx.Ping.{
  Floats, Bucket, Window, point_of, present, bucket_series, total_sent, total_recv, day_summary,
}
use srx.Ping.Merging.{downsample_series-total}
use srx.Ping.Accounts.{
  Sample, IsSound, Accounts, answered, sent_in, recv_in, held, empty, probes, probes-Accounts,
}

module _ {R : Type 0} ⦃f : Floats R⦄ where
  drop-All : (n : ℕ) (bs : List (Bucket R)) → All IsSound bs → All IsSound (drop n bs)
  drop-All zero bs h = h
  drop-All (suc n) [] h = tt
  drop-All (suc n) (b ∷ bs) h = drop-All n bs h.1

  drop-sent :
      (n : ℕ) (bs : List (Bucket R))
      → (sent_in (drop n bs) ≤ sent_in bs) × (recv_in (drop n bs) ≤ recv_in bs)
  drop-sent zero bs = (omega arith, omega arith)
  drop-sent (suc n) [] = (omega arith, omega arith)
  drop-sent (suc n) (b ∷ bs) = let h = drop-sent n bs in (omega (arith, h.0), omega (arith, h.1))

  -- The points of the sound buckets that a test keeps.
  kept_points :
      (p : Bucket R → Bool) (bs : List (Bucket R))
      → All IsSound bs
      → (total_recv (map point_of (keep p bs)) ≤ total_sent (map point_of (keep p bs)))
        × (total_sent (map point_of (keep p bs)) ≤ sent_in bs)
        × (total_recv (map point_of (keep p bs)) ≤ recv_in bs)
  unfolding keep total_sent total_recv point_of
  kept_points p [] h = (omega arith, omega arith, omega arith)
  kept_points p (b ∷ bs) h =
      let (x, y, z) = kept_points p bs h.1 in
      elim (Bool-cases (p b)) [
        | inl t ↦ rw t (omega (arith, x, h.0.recv_le), omega (arith, y), omega (arith, z))
        | inr t ↦ rw t (x, omega (arith, y), omega (arith, z))
      ]

  held-present : (o : Option (Bucket R)) → present o ≡ held o
  unfolding present
  held-present none = refl
  held-present (some b) = refl

  sums-append :
      (xs ys : List (Bucket R))
      → (sent_in (xs ++ ys) ≡ sent_in xs + sent_in ys)
        × (recv_in (xs ++ ys) ≡ recv_in xs + recv_in ys)
  sums-append [] ys = (omega arith, omega arith)
  sums-append (x ∷ xs) ys = let h = sums-append xs ys in (omega (arith, h.0), omega (arith, h.1))

  -- The series of a window with accounts.
  series_counts :
      (cap : ℕ) (w : Window R) (sent recv now hours : ℕ)
      → Accounts cap w sent recv
      → (total_recv (bucket_series w now hours) ≤ total_sent (bucket_series w now hours))
        × (total_sent (bucket_series w now hours) ≤ sent)
        × (total_recv (bucket_series w now hours) ≤ recv)
  unfolding bucket_series
  series_counts cap w sent recv now hours a =
      let bs = w.closed ++ present w.cur in
      let sound : All IsSound (w.closed ++ present w.cur) =
        rw (a.kept, held-present w.cur)
          (All-append IsSound (newest cap a.full) (held w.cur) (drop-All _ a.full a.all_sound)
            a.cur_sound) in
      let (x, y, z) = kept_points (λ b. not (ltb (b.id + hours * 3600) now)) bs sound in
      let (s, r) = sums-append w.closed (held w.cur) in
      let (ds, dr) = drop-sent (length a.full - cap) a.full in
      let closed_sent : sent_in w.closed ≤ sent_in a.full = rw a.kept ds in
      let closed_recv : recv_in w.closed ≤ recv_in a.full = rw a.kept dr in
      let same = ap (λ o. w.closed ++ o) (held-present w.cur) in
      (
        x,
        omega (arith, y, s, ap sent_in same, closed_sent, a.sent_total),
        omega (arith, z, r, ap recv_in same, closed_recv, a.recv_total),
      )

  -- A summary of any samples adds up: answers and losses are the probes sent, the chart has the same
  -- totals as the summary, and no probe or answer is counted that was not made.
  pub day_summary_lem :
      (cap sec : ℕ) (samples : List (Sample R)) (now hours downsample : ℕ)
      → let s = day_summary (probes cap sec empty samples) now hours downsample in
        (s.recv + s.lost ≡ s.sent)
        × (total_sent s.series ≡ s.sent)
        × (total_recv s.series ≡ s.recv)
        × (s.sent ≤ length samples)
        × (s.recv ≤ answered samples)
  unfolding day_summary
  day_summary_lem cap sec samples now hours downsample =
      let w = probes cap sec empty samples in
      let (x, y, z) =
        series_counts cap w (length samples) (answered samples) now hours
          (probes-Accounts cap sec samples) in
      let (t, r) = downsample_series-total (bucket_series w now hours) downsample in
      (omega (arith, x), t, r, y, z)
