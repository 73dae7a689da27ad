-- ===== src/Dashboard/Run/Examples.antt =====
-- The statements about a run at a short life: two lines, a reader, a stop, and the end.
use srx.Prelude.{
  keep, ◌≡◌, ◌≢◌, ◌≤◌, ◌<◌, ◌⊎◌, refl, true, false, some, List, [], ◌∷◌, is_some, Result, ok, err,
  os_error, arith,
}
use srx.Prelude.Int.{pos, negsuc}
use srx.Dashboard.Run.{
  Run, Batch, Action, Subscription, emits, finishes, subscribes, launches, stops, new, play, step,
  emit, publish, finish, max_subscribers, active_subscribers, replay, subscribe, launch,
  request_stop,
}
use srx.Dashboard.Run.Numbering.{Numbered}
use srx.Dashboard.Run.Invariant.{IsValid, play-new-IsValid}
use srx.Dashboard.Run.Streams.{replay-Numbered}
use srx.Dashboard.Run.Subscribing.{Served, subscribe-Served}

abbrev unrecorded : Run → Result Batch
unrecorded r = err os_error

abbrev first_run : Run
first_run = new "a1" "srx_workload.py http" false (some "http") 5

abbrev life : List Action
life = launches ∷ subscribes 7 0 ∷ emits "one" ∷ emits "two" ∷ stops ∷ finishes (negsuc 14) 9 ∷ []

abbrev ended_run : Run
ended_run = play unrecorded first_run life

abbrev after_end : List Action
after_end = emits "late" ∷ finishes (pos 0) 10 ∷ stops ∷ launches ∷ []

abbrev valid : IsValid ended_run
valid = play-new-IsValid unrecorded life "a1" "srx_workload.py http" false (some "http") 5

ended_sequence : ended_run.sequence ≡ 3
unfolding play step new finish request_stop emit subscribe active_subscribers keep launch publish
ended_sequence = refl

ended_terminal : is_some ended_run.terminal ≡ true
unfolding play step new finish request_stop emit subscribe active_subscribers keep launch publish
ended_terminal = refl

play-new-IsValid_example :
    IsValid (play unrecorded (new "a1" "srx_workload.py http" false (some "http") 5) life)
play-new-IsValid_example =
    play-new-IsValid unrecorded life "a1" "srx_workload.py http" false (some "http") 5

replay-Numbered_example : Numbered 1 (replay ended_run 1) ended_run.sequence
replay-Numbered_example =
    replay-Numbered ended_run valid 1 (omega (arith, ended_sequence))
      (omega (arith, ended_sequence))

valid_first : IsValid first_run
unfolding new play
valid_first = play-new-IsValid unrecorded [] "a1" "srx_workload.py http" false (some "http") 5

subscribe-Served_example :
    ((max_subscribers ≤ active_subscribers first_run)
      × ((s : Subscription) → subscribe first_run 7 0 ≢ ok s))
    ⊎ ((active_subscribers first_run < max_subscribers)
        × ((s : Subscription) × (subscribe first_run 7 0 ≡ ok s)
            × Served unrecorded first_run.terminal first_run 7 0 ("one" ∷ "two" ∷ []) s))
unfolding new
subscribe-Served_example =
    subscribe-Served unrecorded first_run 7 0 ("one" ∷ "two" ∷ []) valid_first (omega arith)
      (omega arith) (omega arith)
