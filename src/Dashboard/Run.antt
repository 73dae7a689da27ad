-- ===== src/Dashboard/Run.antt =====
-- `Run` of srx-dashboard/dashboard.py. A method that holds the run's lock is one step. A subscriber's
-- queue outlives its subscription, so it stays in the list with a mark. Times are ticks.
pub mod Numbering
pub mod Invariant
pub mod Streams
pub mod Subscribing
mod Examples
use srx.Prelude.{
  ℕ, zero, suc, ◌+◌, ◌-◌, ◌≡◌, Bool, true, false, not, ◌&&◌, ◌||◌, Option, none, some, String, List,
  [], ◌∷◌, ◌++◌, keep, any, leb, ltb, nat_eq, length, drop, is_some, Result, ok, err, value_error,
  eq_string, ◌==◌, if◌then◌else◌,
}
use srx.Prelude.Int.{ℤ, eq_ℤ}
use srx.Collector.{push}

abbrev pub max_lines : ℕ
max_lines = 2000

abbrev pub max_line_chars : ℕ
max_line_chars = 4096

abbrev pub queue_size : ℕ
queue_size = 256

abbrev pub max_subscribers : ℕ
max_subscribers = 16

pub record Batch : Type 0 where
  pub id : String
  pub passed : ℕ
  pub failed : ℕ
  pub total : ℕ

pub record End : Type 0 where
  pub rc : ℤ
  pub elapsed : ℕ
  pub batch : Option Batch
  pub history_error : Bool

pub data Payload : Type 0 where
  log : String → Payload
  end : End → Payload
  reset : Payload

-- `(sequence, kind, data)`
pub record Event : Type 0 where
  pub sequence : ℕ
  pub payload : Payload

-- A queue and whether it is in `subscribers`; the marker None tells a slow reader to reconnect.
pub record Subscriber : Type 0 where
  pub name : ℕ
  pub queue : List (Option Event)
  pub subscribed : Bool

-- A validated parameter.
pub data Param : Type 0 where
  int : ℕ → Param
  str : String → Param

abbrev pub Params : Type 0
Params = List (String × Param)

-- The arguments of `spawn_run` that identify a request.
pub record Request : Type 0 where
  pub workload : String
  pub target : String
  pub src : String
  pub params : Params
  pub root_ok : Bool

pub record Run : Type 0 where
  pub id : String
  pub cmdline : String
  pub use_sudo : Bool
  pub workload : Option String
  pub started : ℕ
  pub ended : Option ℕ
  pub returncode : Option ℤ
  pub lines : List String
  pub events : List Event
  pub sequence : ℕ
  pub terminal : Option Event
  pub subscribers : List Subscriber
  pub proc : Bool
  pub stop_requested : Bool
  pub request_id : Option String
  pub request : Option Request

-- `Run.__init__`
unfoldable pub new : String → String → Bool → Option String → ℕ → Run
new run_id cmdline use_sudo workload now = record {
  id = run_id;
  cmdline = cmdline;
  use_sudo = use_sudo;
  workload = workload;
  started = now;
  ended = none;
  returncode = none;
  lines = [];
  events = [];
  sequence = 0;
  terminal = none;
  subscribers = [];
  proc = false;
  stop_requested = false;
  request_id = none;
  request = none;
}

-- `q.put_nowait(event)`, and what a full queue brings about.
unfoldable pub offer : Event → Subscriber → Subscriber
offer event s =
    if s.subscribed
    then (if ltb (length s.queue) queue_size
        then record s { queue = s.queue ++ some event ∷ [] }
        else record s { subscribed = false; queue = none ∷ [] })
    else s

unfoldable pub offer_all : Event → List Subscriber → List Subscriber
offer_all event [] = []
offer_all event (s ∷ subscribers) = offer event s ∷ offer_all event subscribers

abbrev pub next_event : Run → Payload → Event
next_event r payload = record { sequence = r.sequence + 1; payload = payload }

-- `_publish`
unfoldable pub publish : Run → Payload → Run
publish r payload = record r {
  sequence = r.sequence + 1;
  events = push max_lines r.events (next_event r payload);
  subscribers = offer_all (next_event r payload) r.subscribers;
}

-- `line[:n]`
unfoldable pub take_chars : ℕ → String → String
take_chars zero s = String.[]
take_chars (suc n) String.[] = String.[]
take_chars (suc n) (String.◌∷◌ c s) = String.◌∷◌ c (take_chars n s)

unfoldable pub emit : Run → String → Run
emit r line =
    if is_some r.terminal
    then r
    else let cut = take_chars max_line_chars line in
      publish (record r { lines = push max_lines r.lines cut }) (log cut)

-- The payload of the end event; `recorded` is what `record_batch` returned or raised.
unfoldable pub end_payload : Run → ℤ → ℕ → Result Batch → End
end_payload r rc now recorded =
    let plain : End = record {
      rc = rc;
      elapsed = now - r.started;
      batch = none;
      history_error = false;
    } in
    let batched : End = elim recorded [
      | ok b ↦ record plain { batch = some b }
      | err e ↦ record plain { history_error = true }
    ] in
    elim r.workload [ none ↦ plain | some w ↦ if w == "all" then batched else plain ]

unfoldable pub finish : (Run → Result Batch) → Run → ℤ → ℕ → Run
finish record_batch r rc now =
    if is_some r.terminal
    then r
    else let closed : Run = record r { returncode = some rc; ended = some now } in
      let last : Payload = end (end_payload closed rc now (record_batch closed)) in
      record (publish closed last) { terminal = some (next_event closed last) }

unfoldable pub active_subscribers : Run → ℕ
active_subscribers r = length (keep (λ s. s.subscribed) r.subscribers)

-- `self.events and (last_id < self.events[0][0] - 1 or last_id > self.sequence)`
unfoldable pub gap_in : List Event → ℕ → ℕ → Bool
gap_in [] sequence last_id = false
gap_in (e ∷ rest) sequence last_id = ltb (suc last_id) e.sequence || ltb sequence last_id

unfoldable pub has_gap : Run → ℕ → Bool
has_gap r last_id = gap_in r.events r.sequence last_id

abbrev pub reset_event : Event
reset_event = record { sequence = 0; payload = reset }

-- The backlog before the terminal event is looked for.
unfoldable pub replay : Run → ℕ → List Event
replay r last_id =
    if has_gap r last_id
    then reset_event ∷ r.events
    else keep (λ e. ltb last_id e.sequence) r.events

-- `==` on the data of an event.
unfoldable pub same_batch : Option Batch → Option Batch → Bool
same_batch none none = true
same_batch (some a) (some b) =
    a.id == b.id
    && (nat_eq a.passed b.passed && (nat_eq a.failed b.failed && nat_eq a.total b.total))
same_batch a b = false

unfoldable pub same_payload : Payload → Payload → Bool
unfolding same_batch
same_payload (log s) (log t) = s == t
same_payload (end a) (end b) =
    (a.rc == b.rc && nat_eq a.elapsed b.elapsed)
    && (same_batch a.batch b.batch
        && (if a.history_error then b.history_error else not b.history_error))
same_payload reset reset = true
same_payload a b = false

-- `t in backlog`, which compares whole events
unfoldable pub holds : Event → List Event → Bool
unfolding same_payload
holds t backlog =
    any (λ e. nat_eq e.sequence t.sequence && same_payload e.payload t.payload) backlog

unfoldable pub with_terminal : Option Event → List Event → List Event
with_terminal none backlog = backlog
with_terminal (some t) backlog = if holds t backlog then backlog else backlog ++ t ∷ []

pub record Subscription : Type 0 where
  pub run : Run
  pub backlog : List Event
  pub done : Bool

-- `subscribe`, for a new queue of the given name.
unfoldable pub subscribe : Run → ℕ → ℕ → Result Subscription
subscribe r name last_id =
    if leb max_subscribers (active_subscribers r)
    then err value_error
    else ok (record {
      run = if is_some r.terminal then r else record r {
        subscribers = record { name = name; queue = []; subscribed = true } ∷ r.subscribers;
      };
      backlog = with_terminal r.terminal (replay r last_id);
      done = is_some r.terminal;
    })

unfoldable pub discard : ℕ → List Subscriber → List Subscriber
discard name [] = []
discard name (s ∷ subscribers) =
    (if nat_eq s.name name then record s { subscribed = false } else s) ∷ discard name subscribers

unfoldable pub unsubscribe : Run → ℕ → Run
unsubscribe r name = record r { subscribers = discard name r.subscribers }

-- `q.get()` of the reader of a queue: the queue after it.
unfoldable pub read : ℕ → List Subscriber → List Subscriber
read name [] = []
read name (s ∷ subscribers) =
    (if nat_eq s.name name then record s { queue = drop 1 s.queue } else s) ∷ read name subscribers

-- The part of `target_thread` under the lock: whether the process is started.
unfoldable pub launch : Run → Run
launch r = if r.stop_requested then r else record r { proc = true }

pub data Killed : Type 0 where
  finished before_start signalled : Killed

-- The part of `kill_run` under the lock; a signal is sent only in the last case.
unfoldable pub request_stop : Run → Run × Killed
request_stop r =
    if is_some r.terminal
    then (r, finished)
    else (record r { stop_requested = true }, if r.proc then signalled else before_start)

-- What the worker thread, the readers and the operator do to a run, one locked section at a time.
pub data Action : Type 0 where
  emits : String → Action
  finishes : ℤ → ℕ → Action
  subscribes : ℕ → ℕ → Action
  unsubscribes reads : ℕ → Action
  launches stops : Action

unfoldable pub step : (Run → Result Batch) → Run → Action → Run
step record_batch r (emits line) = emit r line
step record_batch r (finishes rc now) = finish record_batch r rc now
step record_batch r (subscribes name last_id) = elim (subscribe r name last_id) [
  | ok s ↦ s.run
  | err e ↦ r
]
step record_batch r (unsubscribes name) = unsubscribe r name
step record_batch r (reads name) = record r { subscribers = read name r.subscribers }
step record_batch r launches = launch r
step record_batch r stops = (request_stop r).0

unfoldable pub play : (Run → Result Batch) → Run → List Action → Run
play record_batch r [] = r
play record_batch r (a ∷ actions) = play record_batch (step record_batch r a) actions
