-- ===== src/Collector/Buffer.antt =====
-- The ring buffer holds the newest events, and counts what it dropped.
use mathlib.Core.List.{Perm}
use native.Mathlib.Nat.{zero-add, suc-add}
use srx.Prelude.{
  ℕ, zero, suc, ◌+◌, ◌-◌, ◌≤◌, ◌<◌, ◌≡◌, refl, sym, ap, ◌∙◌, inl, inr, true, some, List, [], ◌∷◌,
  ◌++◌, length, length-append, length-drop, drop, keep, All, is_some, nat_eq, nat_eq_iff,
  Bool-cases, ok, arith,
}
use srx.Prelude.Int.{ℤ, ◌+ℤ◌, ◌-ℤ◌}
use srx.Telemetry.{
  Stimulus, TelemetryEvent, Stamp, finite, infinity, minus_infinity, nan, ticks, within_window,
}
use srx.Correlator.{Correlator, is_candidate, candidates}
use srx.Correlator.Ranking.{candidates_sorted}
use srx.Collector.{Collector, new, push, add_event, clear, snapshot, selected, query}

module _ {A : Type 0} where
  -- The last `n` entries.
  abbrev pub newest : ℕ → List A → List A
  newest n xs = drop (length xs - n) xs

  drop-append : (k : ℕ) (xs ys : List A) → k ≤ length xs → drop k (xs ++ ys) ≡ drop k xs ++ ys
  drop-append zero xs ys h = refl
  drop-append (suc k) [] ys h = absurd (omega arith)
  drop-append (suc k) (x ∷ xs) ys h = drop-append k xs ys (omega arith)

  pub drop-nil : (k : ℕ) → drop {A = A} k [] ≡ []
  drop-nil zero = refl
  drop-nil (suc k) = refl

  drop-drop : (j k : ℕ) (xs : List A) → drop j (drop k xs) ≡ drop (k + j) xs
  drop-drop j zero xs = ap (λ n. drop n xs) (sym (zero-add j))
  drop-drop j (suc k) [] = drop-nil j ∙ sym (drop-nil (suc k + j))
  drop-drop j (suc k) (x ∷ xs) = drop-drop j k xs ∙ ap (λ n. drop n (x ∷ xs)) (sym (suc-add k j))

  -- An append to a buffer that holds the newest entries of a history.
  pub push-newest :
      (cap : ℕ) (xs : List A) (x : A) → push cap (newest cap xs) x ≡ newest cap (xs ++ x ∷ [])
  push-newest cap xs x = elim (Bool-cases (nat_eq (length (newest cap xs)) cap)) [
    | inl full ↦ rw full (
        ap (drop 1) (sym kept)
        ∙ (drop-drop 1 (length xs - cap) (xs ++ x ∷ [])
            ∙ ap (λ k. drop k (xs ++ x ∷ []))
                (omega (arith, size, held, (nat_eq_iff (length (newest cap xs)) cap).0 full))))
    | inr room ↦
        rw room (sym kept ∙ ap (λ k. drop k (xs ++ x ∷ [])) (ground (arith, size, held, length xs)))
  ]
    where
      kept : drop (length xs - cap) (xs ++ x ∷ []) ≡ newest cap xs ++ x ∷ []
      kept = drop-append (length xs - cap) xs (x ∷ []) (omega arith)

      size : length (xs ++ x ∷ []) ≡ length xs + 1
      size = omega (arith, length-append xs (x ∷ []))

      held : length (newest cap xs) ≡ length xs - (length xs - cap)
      held = length-drop (length xs - cap) xs

-- What happens to a collector: an event arrives, or the buffer is cleared.
pub data Op : Type 0 where
  arrives : TelemetryEvent → Op
  clears : Op

pub run : Collector → List Op → Collector
run c [] = c
run c (arrives e ∷ ops) = run (add_event c e) ops
run c (clears ∷ ops) = run (clear c) ops

-- The events that arrived since the last clear, behind those in `h`.
pub history : List TelemetryEvent → List Op → List TelemetryEvent
history h [] = h
history h (arrives e ∷ ops) = history (h ++ e ∷ []) ops
history h (clears ∷ ops) = history [] ops

run-newest :
    (n : ℕ) (ops : List Op) (c : Collector) (h : List TelemetryEvent)
    → c.max_events ≡ n
    → c.events ≡ newest n h
    → (run c ops).events ≡ newest n (history h ops)
unfolding run history add_event clear
run-newest n [] c h m e = e
run-newest n (arrives x ∷ ops) c h m e =
    run-newest n ops (add_event c x) (h ++ x ∷ []) m (rw (m, e) (push-newest n h x))
run-newest n (clears ∷ ops) c h m e = run-newest n ops (clear c) [] m (sym (drop-nil (0 - n)))

-- A collector that was created with a cap holds, after any arrivals and clears, exactly the newest
-- events since the last clear, as many as the cap allows, oldest first.
pub snapshot-run :
    (n : ℤ) (c : Collector) (ops : List Op)
    → new n ≡ ok c
    → snapshot (run c ops) ≡ newest c.max_events (history [] ops)
unfolding snapshot new
snapshot-run n c ops h = run-newest c.max_events ops c [] refl (ground arith)

pub arrivals : List Op → ℕ
arrivals [] = 0
arrivals (arrives e ∷ ops) = suc (arrivals ops)
arrivals (clears ∷ ops) = arrivals ops

-- How many events the clears of a run removed.
pub removed : Collector → List Op → ℕ
removed c [] = 0
removed c (arrives e ∷ ops) = removed (add_event c e) ops
removed c (clears ∷ ops) = length c.events + removed (clear c) ops

add_event_count :
    (c : Collector) (e : TelemetryEvent)
    → 0 < c.max_events
    → (add_event c e).dropped_events + length (add_event c e).events
      ≡ c.dropped_events + length c.events + 1
unfolding add_event
add_event_count c e h =
    ground (arith, length-append c.events (e ∷ []), length-drop 1 (c.events ++ e ∷ []))

add_event_pos :
    (c : Collector) (e : TelemetryEvent) → 0 < c.max_events → 0 < (add_event c e).max_events
unfolding add_event
add_event_pos c e h = h

-- Every event that arrived is in the buffer, was counted as dropped, or was removed by a clear; the
-- count of dropped events is not reset by a clear.
pub run_accounting :
    (ops : List Op) (c : Collector)
    → 0 < c.max_events
    → (run c ops).dropped_events + length (run c ops).events + removed c ops
      ≡ c.dropped_events + length c.events + arrivals ops
unfolding run removed arrivals clear
run_accounting [] c h = omega arith
run_accounting (arrives e ∷ ops) c h =
    omega (arith, add_event_count c e h, run_accounting ops (add_event c e) (add_event_pos c e h))
run_accounting (clears ∷ ops) c h = omega (arith, run_accounting ops (clear c) h)

module _ (c : Correlator) (s : Stimulus) (t : ℤ) (sent : s.timestamp ≡ finite t) where
  selected-eq-is_candidate :
      (e : TelemetryEvent) (y : ℤ)
      → e.timestamp ≡ finite y
      → selected
          (some s.expected_event_type)
          (some s.five_tuple)
          (some (finite (t -ℤ c.skew_s)))
          (some (finite (t +ℤ c.window_s +ℤ c.skew_s)))
          e
        ≡ is_candidate c s e
  unfolding selected is_candidate within_window
  selected-eq-is_candidate e y h = ground arith

  select_candidates :
      (events : List TelemetryEvent)
      → All (λ e. is_some (ticks e.timestamp) ≡ true) events
      → keep
          (selected
            (some s.expected_event_type)
            (some s.five_tuple)
            (some (finite (t -ℤ c.skew_s)))
            (some (finite (t +ℤ c.window_s +ℤ c.skew_s))))
          events
        ≡ keep (is_candidate c s) events
  unfolding keep
  select_candidates [] h = refl
  select_candidates (e ∷ events) h =
      let (y, at) = timed e.timestamp h.0 in
      rw (selected-eq-is_candidate e y at, select_candidates events h.1)
    where
      timed : (p : Stamp) → is_some (ticks p) ≡ true → (y : ℤ) × (p ≡ finite y)
      timed (finite y) q = (y, refl)
      timed infinity q = cc
      timed minus_infinity q = cc
      timed nan q = cc

  -- If every buffered event has a finite timestamp, a query by the expected type, the tuple and the
  -- bounds of the correlation window returns the candidates, in another order.
  pub query-perm-candidates :
      (col : Collector)
      → All (λ e. is_some (ticks e.timestamp) ≡ true) (snapshot col)
      → Perm (candidates c s (snapshot col)) (
          query col
            (some s.expected_event_type)
            (some s.five_tuple)
            (some (finite (t -ℤ c.skew_s)))
            (some (finite (t +ℤ c.window_s +ℤ c.skew_s))))
  unfolding query snapshot
  query-perm-candidates col h =
      rw (select_candidates col.events h) (candidates_sorted c s col.events).0
