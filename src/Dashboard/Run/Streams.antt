-- ===== src/Dashboard/Run/Streams.antt =====
-- What is replayed to a new reader, and that the end of a run is final.
use srx.Prelude.{
  eq_string, ℕ, ◌+◌, ◌≤◌, ◌<◌, ◌≡◌, refl, ◌∙◌, ◌⊎◌, inl, inr, ◌≢◌, Bool, true, false, none, List,
  [], ◌∷◌, length, min, keep, ltb, leb, is_some, Bool-cases, Result, arith, if◌then◌else◌,
}
use srx.Dashboard.Run.{
  Run, Event, Batch, Action, emits, finishes, subscribes, unsubscribes, reads, launches, stops,
  max_lines, max_subscribers, active_subscribers, gap_in, has_gap, replay, reset_event, subscribe,
  emit, finish, unsubscribe, launch, request_stop, before_start, Subscriber, step, play,
}
use srx.Prelude.Int.{eq_ℤ}
use srx.Dashboard.Run.Numbering.{Numbered, length-Numbered}
use srx.Dashboard.Run.Invariant.{IsValid}

gap_in-false :
    (lo hi last : ℕ) (es : List Event)
    → Numbered lo es hi
    → length es ≡ min hi max_lines
    → last ≤ hi
    → hi ≤ last + max_lines
    → gap_in es hi last ≡ false
unfolding gap_in
gap_in-false lo hi last [] n f h k = refl
gap_in-false lo hi last (e ∷ es) n f h k = ground (arith, length-Numbered (lo + 1) hi es n.1)

gap_in-true :
    (lo hi last : ℕ) (es : List Event)
    → Numbered lo es hi
    → length es ≡ min hi max_lines
    → hi ≢ 0
    → (last + max_lines < hi) ⊎ (hi < last)
    → gap_in es hi last ≡ true
unfolding gap_in
gap_in-true lo hi last [] n f h k = absurd (omega arith)
gap_in-true lo hi last (e ∷ es) n f h k = ground (arith, length-Numbered (lo + 1) hi es n.1)

keep_newer :
    (lo hi last : ℕ) (es : List Event)
    → Numbered lo es hi
    → last ≤ lo
    → keep (λ e. ltb last e.sequence) es ≡ es
unfolding keep
keep_newer lo hi last [] n h = refl
keep_newer lo hi last (e ∷ es) n h = ground (arith, keep_newer (lo + 1) hi last es n.1)

keep-Numbered :
    (lo hi last : ℕ) (es : List Event)
    → Numbered lo es hi
    → lo ≤ last
    → last ≤ hi
    → Numbered last (keep (λ e. ltb last e.sequence) es) hi
unfolding keep
keep-Numbered lo hi last [] n h k = omega arith
keep-Numbered lo hi last (e ∷ es) n h k = elim (Bool-cases (ltb last e.sequence)) [
  | inl newer ↦ rw newer (
      rw (keep_newer (lo + 1) hi last es n.1 (ground arith))
        (let same : last ≡ lo = ground arith in rw same n))
  | inr older ↦ rw older (keep-Numbered (lo + 1) hi last es n.1 (ground arith) k)
]

module _ (r : Run) (v : IsValid r) (last_id : ℕ) where
  -- A reader that has seen all events up to `last_id` and is at most 2000 behind is sent exactly the
  -- events last_id + 1 to the newest, in order.
  pub replay-Numbered :
      last_id ≤ r.sequence
      → r.sequence ≤ last_id + max_lines
      → Numbered last_id (replay r last_id) r.sequence
  unfolding replay has_gap
  replay-Numbered h k =
      rw (gap_in-false v.ring.lo r.sequence last_id r.events v.ring.numbered v.ring.full h k) (
        keep-Numbered v.ring.lo r.sequence last_id r.events v.ring.numbered
          (omega
            (arith, v.ring.full, length-Numbered v.ring.lo r.sequence r.events v.ring.numbered))
          h)

  -- A reader that is more than 2000 events behind, or ahead of a run that has events, is sent the reset
  -- marker and then all that the ring holds.
  pub replay_gap :
      r.sequence ≢ 0
      → (last_id + max_lines < r.sequence) ⊎ (r.sequence < last_id)
      → replay r last_id ≡ reset_event ∷ r.events
  unfolding replay has_gap
  replay_gap h k =
      rw (gap_in-true v.ring.lo r.sequence last_id r.events v.ring.numbered v.ring.full h k) refl

-- What readers and the history see of a run.
pub record SameOutput (r q : Run) : Type 0 where
  pub events : q.events ≡ r.events
  pub sequence : q.sequence ≡ r.sequence
  pub lines : q.lines ≡ r.lines
  pub terminal : q.terminal ≡ r.terminal
  pub returncode : q.returncode ≡ r.returncode
  pub ended : q.ended ≡ r.ended

SameOutput-refl : (r : Run) → SameOutput r r
SameOutput-refl r = record {
  events = refl;
  sequence = refl;
  lines = refl;
  terminal = refl;
  returncode = refl;
  ended = refl;
}

same_output :
    (r : Run) (ss : List Subscriber) (p q : Bool)
    → SameOutput r (record r { subscribers = ss; proc = p; stop_requested = q })
same_output r ss p q = record {
  events = refl;
  sequence = refl;
  lines = refl;
  terminal = refl;
  returncode = refl;
  ended = refl;
}

step-SameOutput :
    (f : Run → Result Batch) (r : Run) (a : Action)
    → is_some r.terminal ≡ true
    → SameOutput r (step f r a)
unfolding step emit finish subscribe unsubscribe launch request_stop
step-SameOutput f r (emits line) h = rw h (SameOutput-refl r)
step-SameOutput f r (finishes rc now) h = rw h (SameOutput-refl r)
step-SameOutput f r (subscribes name last_id) h =
    elim (Bool-cases (leb max_subscribers (active_subscribers r))) [
      | inl full ↦ rw (full, step, subscribe) (SameOutput-refl r)
      | inr room ↦ rw (room, step, subscribe) (rw h (SameOutput-refl r))
    ]
step-SameOutput f r (unsubscribes name) h = same_output r _ r.proc r.stop_requested
step-SameOutput f r (reads name) h = same_output r _ r.proc r.stop_requested
step-SameOutput f r launches h = in_branch r.stop_requested
  where
    in_branch : (b : Bool) → SameOutput r (if b then r else record r { proc = true })
    in_branch true = SameOutput-refl r
    in_branch false = same_output r r.subscribers true r.stop_requested
step-SameOutput f r stops h = rw (h, step, request_stop) (SameOutput-refl r)

-- Once a run has ended, nothing that the worker, a reader or the operator does changes its events,
-- its lines, its end event or its return code: a second end is ignored.
pub play-SameOutput :
    (f : Run → Result Batch) (actions : List Action) (r : Run)
    → is_some r.terminal ≡ true
    → SameOutput r (play f r actions)
unfolding play
play-SameOutput f [] r h = SameOutput-refl r
play-SameOutput f (a ∷ actions) r h =
    let s = step-SameOutput f r a h in
    let t = play-SameOutput f actions (step f r a) (rw s.terminal h) in
    record {
      events = t.events ∙ s.events;
      sequence = t.sequence ∙ s.sequence;
      lines = t.lines ∙ s.lines;
      terminal = t.terminal ∙ s.terminal;
      returncode = t.returncode ∙ s.returncode;
      ended = t.ended ∙ s.ended;
    }

-- A stop that comes before the worker launches is final: the process is never started, and the
-- operator is told that nothing was signalled.
pub launch-request_stop :
    (r : Run)
    → r.terminal ≡ none
    → r.proc ≡ false
    → ((request_stop r).1 ≡ before_start)
      × ((launch (request_stop r).0).proc ≡ false)
      × ((launch (request_stop r).0).stop_requested ≡ true)
unfolding launch request_stop
launch-request_stop r h k = (ground arith, ground arith, ground arith)
