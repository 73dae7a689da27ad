-- ===== src/Dashboard/Handler/Examples.antt =====
-- The statement about POST at a request that starts a scan.
use srx.Prelude.{true, none, some, [], ◌∷◌, ok}
use srx.Dashboard.Fields.{boolean, string, object, end, member}
use srx.Dashboard.Handler.{HttpRequest, Server}

abbrev server : Server
server = record {
  origins = "http://127.0.0.1:8081" ∷ [];
  netloc = λ _. "127.0.0.1:8081";
  config = record {
    client_host = "";
    client_repo = "";
    local_python = "python3";
    local_cli = "cli.py";
  };
  text = λ _. "python3 cli.py";
}

abbrev post : HttpRequest
post = record {
  headers = record {
    host = "127.0.0.1:8081" ∷ [];
    origin = "http://127.0.0.1:8081" ∷ [];
    fetch_site = some "same-origin";
    transfer_encoding = none;
    content_length = "80" ∷ [];
    content_type = "application/json";
    last_event_id = none;
  };
  path = "/api/run";
  id = "";
  received = 80;
  json = ok (
      object (
        member "workload" (string "scan")
          (member "target" (string "10.0.0.2") (member "confirm_aggressive" (boolean true) end))));
}
