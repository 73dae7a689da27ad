-- ===== src/Ping/Examples.antt =====
-- The statements about the buckets with hundredths of a millisecond as floats.
use srx.Prelude.{ℕ, ◌+◌, ◌*◌, ◌/◌, ◌≤◌, ◌≡◌, none, some, List, [], ◌∷◌, ltb, length}
use srx.Ping.{Floats, Point, bucket_series, total_sent, total_recv, downsample_series, day_summary}
use srx.Ping.Merging.{downsample_series-total}
use srx.Ping.Totals.{day_summary_lem}
use srx.Ping.Accounts.{Sample, answered, empty, probes}

instance abbrev hundredths : Floats ℕ
hundredths = record {
  of_ℕ = λ n. n * 100;
  add = λ a b. a + b;
  mul = λ a b. a * b / 100;
  div = λ a b. a * 100 / b;
  less = ltb;
}

abbrev minutes : List (Sample ℕ)
minutes = (60, some 1200) ∷ (61, none) ∷ (125, some 900) ∷ (190, some 1000) ∷ []

abbrev chart : List (Point ℕ)
chart = bucket_series (probes 10080 60 empty minutes) 200 24

abbrev hour : ℕ
hour = 23

abbrev minute : ℕ
minute = 59

downsample_series-total_example :
    (total_sent (downsample_series chart 2) ≡ total_sent chart)
    × (total_recv (downsample_series chart 2) ≡ total_recv chart)
downsample_series-total_example = downsample_series-total chart 2

day_summary_lem_example :
    let s = day_summary (probes 10080 60 empty minutes) 200 24 2 in
    (s.recv + s.lost ≡ s.sent)
    × (total_sent s.series ≡ s.sent)
    × (total_recv s.series ≡ s.recv)
    × (s.sent ≤ length minutes)
    × (s.recv ≤ answered minutes)
day_summary_lem_example = day_summary_lem 10080 60 minutes 200 24 2
