-- ===== src/Dashboard/Worker.antt =====
-- The worker thread of `spawn_run` in srx-dashboard/dashboard.py: what `target_thread` does to its run,
-- one locked section after another. What the process does is given.
mod Examples
use srx.Prelude.{
  ℕ, zero, suc, ◌≡◌, ◌⊎◌, inl, inr, Bool, true, false, Option, none, some, String, List, [], ◌∷◌,
  ◌++◌, map, is_some, Bool-cases, Result, if◌then◌else◌,
}
use Prim.Native.String.{◌++◌ as append}
use srx.Prelude.Int.{ℤ, pos, negsuc}
use srx.Dashboard.Run.{
  Run, Event, Payload, End, end, Batch, Action, emits, finishes, stops, launch, play, end_payload,
}

-- The process of a run: it cannot be started, it ends with an exit code behind its lines, or reading or
-- waiting fails behind some lines. With an exception come its text, whether it is FileNotFoundError
-- and whether the process still runs.
pub data Process : Type 0 where
  not_started : Bool → String → Process
  exits : List String → ℤ → Process
  breaks : List String → Bool → Bool → String → Process

-- `127 if isinstance(e, FileNotFoundError) else 1`
unfoldable pub error_code : Bool → ℤ
error_code missing = if missing then pos 127 else pos 1

unfoldable pub report : String → String
report e = append "ERROR: " e

-- `-signal.SIGTERM`
abbrev pub terminated_code : ℤ
terminated_code = negsuc 14

-- What the process leads to behind the section that starts it: the sections before the last, and the
-- code that `finish` is called with.
unfoldable pub process_actions : String → Process → List Action × ℤ
unfolding error_code report
process_actions cmdline (not_started missing e) = (emits (report e) ∷ [], error_code missing)
process_actions cmdline (exits lines rc) = (emits (append "$ " cmdline) ∷ map emits lines, rc)
process_actions cmdline (breaks lines missing alive e) = (
  emits (append "$ " cmdline) ∷ map emits lines
      ++ (emits (report e) ∷ (if alive then stops ∷ [] else [])),
  error_code missing,
)

-- Sections of the worker, and what others do to the run before each of them.
unfoldable pub interleaved : List Action → List (List Action) → List Action
interleaved [] others = []
interleaved (a ∷ actions) [] = a ∷ interleaved actions []
interleaved (a ∷ actions) (first ∷ more) = first ++ a ∷ interleaved actions more

-- A run that was stopped before gets no process.
unfoldable pub sections : Bool → String → Process → List Action × ℤ
unfolding process_actions
sections stopped cmdline p = if stopped then ([], terminated_code) else process_actions cmdline p

-- The section that asks whether the run is stopped and otherwise calls Popen, which may fail.
unfoldable pub begin_process : Process → Run → Run
begin_process (not_started missing e) r = r
begin_process (exits lines rc) r = launch r
begin_process (breaks lines missing alive e) r = launch r

unfoldable pub first_of : List (List Action) → List Action
first_of [] = []
first_of (first ∷ more) = first

unfoldable pub rest_of : List (List Action) → List (List Action)
rest_of [] = []
rest_of (first ∷ more) = more

-- `target_thread`, up to `finish` at `now`: what others do first comes before the section that asks
-- whether the run is stopped.
unfoldable pub target_thread : (Run → Result Batch) → Run → Process → List (List Action) → ℕ → Run
unfolding sections interleaved begin_process first_of rest_of
target_thread f r p others now =
    let ready = play f r (first_of others) in
    let (actions, rc) = sections ready.stop_requested ready.cmdline p in
    play f (begin_process p ready) (interleaved (actions ++ finishes rc now ∷ []) (rest_of others))

-- Everything but the end of the run.
abbrev pub IsQuiet : Action → Type 0
IsQuiet (finishes rc now) = ⊥
IsQuiet a = Unit

abbrev IsLive : Run → Type 0
IsLive r = is_some r.terminal ≡ false

-- The run has ended, with this exit code, and the end event is the last event.
abbrev pub EndedWith : ℤ → Run → Type 0
EndedWith rc r =
    (r.returncode ≡ some rc) × ((t : Event) × (r.terminal ≡ some t) × (t.sequence ≡ r.sequence))

abbrev pub is_stop : Action → Bool
is_stop stops = true
is_stop a = false

-- The exit code of a process that is asked for.
abbrev pub exit_code : Process → ℤ
exit_code (not_started missing e) = error_code missing
exit_code (exits lines rc) = rc
exit_code (breaks lines missing alive e) = error_code missing
