-- ===== src/Collector/Examples.antt =====
-- The statements about the collector at small buffers and streams.
use mathlib.Core.List.{Perm}
use srx.Prelude.{ℕ, ◌≡◌, refl, true, some, List, [], ◌∷◌, All, ok}
use srx.Prelude.Int.{pos, ◌+ℤ◌, ◌-ℤ◌}
use srx.Telemetry.{finite}
use srx.Telemetry.Examples.{probe, seen, seen_at}
use srx.Correlator.{Correlator, candidates}
use srx.Collector.{Collector, new, snapshot, query, connection}
use srx.Collector.Buffer.{
  newest, Op, arrives, clears, run, history, snapshot-run, query-perm-candidates,
}
use srx.Collector.Framing.{stream, rejoin, IsOneLine, connection_chunking, connection_lossless}

abbrev small : Collector
small = record { max_events = 2; events = []; dropped_events = 0 }

abbrev full : Collector
full = record { max_events = 2; events = seen; dropped_events = 0 }

abbrev traffic : List Op
traffic =
    arrives (seen_at (pos 1))
    ∷ clears
    ∷ arrives (seen_at (pos 2))
    ∷ arrives (seen_at (pos 3))
    ∷ arrives (seen_at (pos 4))
    ∷ []

abbrev chunks : List (List ℕ)
chunks = (97 ∷ 98 ∷ []) ∷ (10 ∷ 99 ∷ []) ∷ []

abbrev one_chunk : List (List ℕ)
one_chunk = (97 ∷ 98 ∷ 10 ∷ 99 ∷ []) ∷ []

abbrev strict : Correlator
strict = record { window_s = pos 10; skew_s = pos 2; require_ground_truth = true }

new-small : new (pos 2) ≡ ok small
unfolding new
new-small = refl

snapshot-run_example : snapshot (run small traffic) ≡ newest small.max_events (history [] traffic)
snapshot-run_example = snapshot-run (pos 2) small traffic new-small

connection_chunking_example : connection [] chunks ≡ connection [] one_chunk
connection_chunking_example = connection_chunking chunks one_chunk refl

connection_lossless_example :
    (rejoin (connection [] chunks).0 (connection [] chunks).1 ≡ stream chunks)
    × All IsOneLine (connection [] chunks).0
    × IsOneLine (connection [] chunks).1
connection_lossless_example = connection_lossless chunks

query-perm-candidates_example : Perm (candidates strict probe (snapshot full)) (
    query full
      (some probe.expected_event_type)
      (some probe.five_tuple)
      (some (finite (pos 100 -ℤ strict.skew_s)))
      (some (finite (pos 100 +ℤ strict.window_s +ℤ strict.skew_s))))
query-perm-candidates_example =
    query-perm-candidates strict probe (pos 100) refl full (unfold snapshot in (refl, (refl, tt)))
