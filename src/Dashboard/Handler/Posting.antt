-- ===== src/Dashboard/Handler/Posting.antt =====
-- What a POST can do to the registry of runs, and under which conditions.
use srx.Prelude.{ℕ, ◌≡◌, ◌≤◌, ◌⊎◌, false, some, String, List, ok}
use srx.Dashboard.Run.{Run}
use srx.Dashboard.Registry.{spawn}
use srx.Dashboard.Fields.{Json}
use srx.Dashboard.Request.{Accepted, validate_request}
use srx.Dashboard.Origins.Boundary.{SameOrigin}
use srx.Dashboard.Handler.{
  max_body, run_started, killed, Response, failure, HttpRequest, Server, Signalling, content_length,
  has_text, find_run, kill_run, replaced, request_of, prepared,
}

-- The conditions that every request to change something meets: its origin, and a body of a length that
-- one header gives, of at most 16384 bytes.
pub record Permitted (s : Server) (q : HttpRequest) (size : ℕ) : Type 0 where
  pub same_origin : SameOrigin s.netloc s.origins q.headers
  pub plain_body : has_text q.headers.transfer_encoding ≡ false
  pub stated : content_length q.headers.content_length ≡ some size
  pub bounded : size ≤ max_body

abbrev pub Refusals : ℕ → Type 0
Refusals code =
    (code ≡ 400) ⊎ ((code ≡ 403) ⊎ ((code ≡ 404) ⊎ ((code ≡ 409) ⊎ ((code ≡ 413) ⊎ (code ≡ 415)))))

-- The three things that a POST can come to.
pub data Posted (s : Server) (runs : List Run) (q : HttpRequest) (id : String) (now : ℕ)
    (signal : Signalling) (result : List Run × Response) : Type 0 where
  refused :
      (code : ℕ)
      → Refusals code
      → result ≡ (runs, failure code)
      → Posted s runs q id now signal result
  started :
      (size : ℕ)
      → Permitted s q size
      → q.path ≡ "/api/run"
      → q.headers.content_type ≡ "application/json"
      → q.received ≡ size
      → (body : Json) → q.json ≡ ok body
      → (a : Accepted) → validate_request body ≡ ok a
      → (runs' : List Run) (r : Run)
      → spawn runs (prepared s a id now) (request_of a) a.request_id ≡ ok (runs', r)
      → result ≡ (runs', record { status = 200; content = run_started r.id })
      → Posted s runs q id now signal result
  stopped :
      Permitted s q 0
      → q.path ≡ "/api/kill"
      → (r : Run) → find_run q.id runs ≡ some r
      → result ≡ (
        replaced (kill_run r signal).0 runs,
        record { status = 200; content = killed (kill_run r signal).1 },
      )
      → Posted s runs q id now signal result
