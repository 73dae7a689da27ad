-- ===== src/Dashboard/Handler.antt =====
-- The HTTP handler of srx-dashboard/dashboard.py: `do_GET`, `do_POST` and `kill_run`. What the libraries
-- make of a request (the parsed target, the media type, the JSON body) is given with it; a response is
-- its status and what it is about.
pub mod Posting
mod Examples
use srx.Prelude.{
  ℕ, zero, suc, ◌+◌, ◌≡◌, Bool, true, false, not, ◌&&◌, ◌||◌, Option, none, some, String, List, [],
  ◌∷◌, ◌++◌, map, all, any, contains, is_some, nat_eq, leb, ltb, length, lookup, eq_string, ◌==◌,
  Result, ok, err, value_error, ◌>>=◌, ◌>>◌, guard, if◌then◌else◌,
}
use Prim.Native.String.{◌++◌ as append}
use srx.Prelude.Text.{codes, is_digit, digits_value, decimal}
use srx.Dashboard.Run.{
  Run, Request, Batch, Event, Subscription, subscribe, request_stop, emit, Killed, finished,
  before_start, signalled, stops, Action,
}
use srx.Dashboard.Registry.{fresh_run, spawn, act}
use srx.Dashboard.Origins.{Headers, authorized}
use srx.Dashboard.Fields.{Json, matches}
use srx.Dashboard.Request.{Accepted, validate_request}
use srx.Dashboard.Command.{Text, Config, Command, make_cmd, joined}

-- A request: the parsed target, the first `id` of the query or "", how many bytes of the body arrive,
-- and what `json.loads` makes of them.
pub record HttpRequest : Type 0 where
  pub headers : Headers
  pub path : String
  pub id : String
  pub received : ℕ
  pub json : Result Json

abbrev pub max_body : ℕ
max_body = 16384

-- What a response is about.
pub data Content : Type 0 where
  refused page history run_list : Content
  run_started : String → Content
  killed : Bool → Content
  stream : Subscription → Content

pub record Response : Type 0 where
  pub status : ℕ
  pub content : Content

abbrev pub failure : ℕ → Response
failure code = record { status = code; content = refused }

-- `re.fullmatch(r"[0-9]{1,limit}", s)`
unfoldable pub is_number : ℕ → String → Bool
is_number limit s =
    all is_digit (codes s) && leb 1 (length (codes s)) && leb (length (codes s)) limit

-- The length that the one Content-Length header gives.
unfoldable pub content_length : List String → Option ℕ
unfolding is_number digits_value
content_length (l ∷ []) = if is_number 8 l then some (digits_value 0 (codes l)) else none
content_length lengths = none

unfoldable pub has_text : Option String → Bool
has_text none = false
has_text (some s) = not (s == "")

-- `_run`
unfoldable pub find_run : String → List Run → Option Run
find_run id [] = none
find_run id (r ∷ runs) = let rest = find_run id runs in if r.id == id then some r else rest

-- What the section of `kill_run` after the lock finds and does.
pub data Signalling : Type 0 where
  exited terminated : Signalling
  failed : String → Signalling

-- `kill_run`: the run after it, and whether it was killed.
unfoldable pub kill_run : Run → Signalling → Run × Bool
kill_run r s = elim (request_stop r).1 [
  | finished ↦ ((request_stop r).0, false)
  | before_start ↦ ((request_stop r).0, true)
  | signalled ↦ elim s [
    | exited ↦ ((request_stop r).0, false)
    | terminated ↦ ((request_stop r).0, true)
    | failed e ↦ (emit (request_stop r).0 (append "ERROR killing: " e), false)
  ]
]

unfoldable pub replaced : Run → List Run → List Run
replaced r [] = []
replaced r (q ∷ runs) = (if q.id == r.id then r else q) ∷ replaced r runs

-- The server: the authorized origins, the client's settings, and how a text is made of code points.
pub record Server : Type 0 where
  pub origins : List String
  pub netloc : String → String
  pub config : Config
  pub text : Text → String

unfoldable pub cmdline_of : Server → Option Command → String
unfolding joined
cmdline_of s none = ""
cmdline_of s (some c) = s.text (joined c.argv)

unfoldable pub use_sudo_of : Option Command → Bool
use_sudo_of none = false
use_sudo_of (some c) = c.use_sudo

abbrev pub request_of : Accepted → Request
request_of a = record {
  workload = a.workload;
  target = a.target;
  src = a.src;
  params = a.params;
  root_ok = true;
}

-- The run that `spawn_run` makes for an accepted request.
unfoldable pub prepared : Server → Accepted → String → ℕ → Run
unfolding cmdline_of use_sudo_of make_cmd
prepared s a id now =
    let command = make_cmd s.config a.workload a.target a.src a.params true in
    fresh_run id (cmdline_of s command) (use_sudo_of command) (request_of a) a.request_id now

-- The body of a request to start a run.
unfoldable pub read_body : HttpRequest → ℕ → Result Accepted
unfolding validate_request
read_body q n = do _ ← guard (nat_eq q.received n) value_error; body ← q.json; validate_request body

unfoldable pub answer_spawn : List Run → Result (List Run × Run) → List Run × Response
answer_spawn runs (ok (runs', r)) = (runs', record { status = 200; content = run_started r.id })
answer_spawn runs (err e) = (runs, failure 409)

unfoldable pub post_run : Server → List Run → HttpRequest → ℕ → String → ℕ → List Run × Response
unfolding read_body answer_spawn prepared
post_run s runs q n id now =
    if q.headers.content_type == "application/json"
    then (elim (read_body q n) [
      | err e ↦ (runs, failure 400)
      | ok a ↦ answer_spawn runs (spawn runs (prepared s a id now) (request_of a) a.request_id)
    ])
    else (runs, failure 415)

unfoldable pub post_kill : List Run → HttpRequest → ℕ → Signalling → List Run × Response
unfolding find_run kill_run replaced
post_kill runs q n signal =
    if nat_eq n 0
    then (elim (find_run q.id runs) [
      | none ↦ (runs, failure 404)
      | some r ↦ (
        replaced (kill_run r signal).0 runs,
        record { status = 200; content = killed (kill_run r signal).1 },
      )
    ])
    else (runs, failure 400)

-- `do_POST`: the registry after it, and the response. `id` and `now` are those of a new run.
unfoldable pub do_post :
    Server → List Run → HttpRequest → String → ℕ → Signalling → List Run × Response
unfolding authorized has_text content_length post_run post_kill
do_post s runs q id now signal =
    if authorized s.netloc s.origins true q.headers
    then (if has_text q.headers.transfer_encoding
        then (runs, failure 400)
        else elim (content_length q.headers.content_length) [
          | none ↦ (runs, failure 400)
          | some n ↦
              if ltb max_body n
              then (runs, failure 413)
              else if q.path == "/api/run"
              then post_run s runs q n id now
              else if q.path == "/api/kill"
              then post_kill runs q n signal
              else (runs, failure 404)
        ])
    else (runs, failure 403)

-- `re.fullmatch(r"[0-9]{1,16}", value)`, where no header is "0"
unfoldable pub last_event : Option String → Option ℕ
unfolding is_number digits_value
last_event none = some 0
last_event (some v) = if is_number 16 v then some (digits_value 0 (codes v)) else none

unfoldable pub open_stream : List Run → Run → ℕ → Option ℕ → List Run × Response
unfolding replaced subscribe
open_stream runs r name none = (runs, failure 400)
open_stream runs r name (some last_id) = elim (subscribe r name last_id) [
  | err e ↦ (runs, failure 400)
  | ok s ↦ (replaced s.run runs, record { status = 200; content = stream s })
]

unfoldable pub get_stream : List Run → HttpRequest → ℕ → List Run × Response
unfolding find_run open_stream last_event
get_stream runs q name = elim (find_run q.id runs) [
  | none ↦ (runs, failure 404)
  | some r ↦ open_stream runs r name (last_event q.headers.last_event_id)
]

unfoldable pub get_lists : List Run → HttpRequest → List Run × Response
get_lists runs q =
    if q.path == "/api/history"
    then (runs, record { status = 200; content = history })
    else if q.path == "/api/runs"
    then (runs, record { status = 200; content = run_list })
    else (runs, failure 404)

-- `do_GET`, up to the delivery of a stream; `name` is that of its new queue.
unfoldable pub do_get : Server → List Run → HttpRequest → ℕ → List Run × Response
unfolding authorized get_stream get_lists
do_get s runs q name =
    if authorized s.netloc s.origins false q.headers
    then (if q.path == "/" || q.path == "/index.html"
        then (runs, record { status = 200; content = page })
        else if q.path == "/api/stream"
        then get_stream runs q name
        else get_lists runs q)
    else (runs, failure 403)
