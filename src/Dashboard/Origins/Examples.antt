-- ===== src/Dashboard/Origins/Examples.antt =====
-- The statements about origins at a proxy on the network and at one request.
use srx.Prelude.{◌≡◌, ◌↔◌, refl, true, false, none, String, [], ◌∷◌, eq_string, ◌==◌, ok}
use srx.Dashboard.Origins.{Url, Settings, Headers, allowed_origins, authorized}
use srx.Dashboard.Origins.Boundary.{
  SameOrigin, authorized_iff, IsGuarded, allowed_origins-IsGuarded,
}

abbrev lab_origin : String
lab_origin = "https://srx.lab"

abbrev parse : String → Url
parse s = record {
  scheme = "https";
  netloc = "srx.lab";
  has_hostname = true;
  exact = s == lab_origin;
}

abbrev settings : Settings
settings = record {
  is_loopback = ok false;
  trust_proxy = true;
  public_origin = lab_origin;
  port = 8081;
}

admits_lab : allowed_origins parse settings ≡ ok (lab_origin ∷ [])
unfolding allowed_origins
admits_lab = refl

allowed_origins-IsGuarded_example : IsGuarded parse settings (lab_origin ∷ [])
allowed_origins-IsGuarded_example =
    allowed_origins-IsGuarded parse settings (lab_origin ∷ []) admits_lab

abbrev headers : Headers
headers = record {
  host = "srx.lab" ∷ [];
  origin = lab_origin ∷ [];
  fetch_site = none;
  transfer_encoding = none;
  content_length = "0" ∷ [];
  content_type = "text/plain";
  last_event_id = none;
}

authorized_iff_example :
    (authorized (λ _. "srx.lab") (lab_origin ∷ []) true headers ≡ true)
    ↔ SameOrigin (λ _. "srx.lab") (lab_origin ∷ []) headers
authorized_iff_example = authorized_iff (λ _. "srx.lab") (lab_origin ∷ []) headers
