-- ===== src/Crawler/Fetch/Examples.antt =====
-- Crawls of a small page, and the statements about them.
use srx.Prelude.{
  ℕ, zero, suc, ◌≡◌, refl, false, none, some, String, [], ◌∷◌, Result, ok, all, any, eq_string,
  take,
}
use srx.Prelude.Int.{pos}
use srx.Prelude.Text.{split, decimal, digits_from, ascii}
use Prim.Native.String.{◌++◌}
use native.Mathlib.Decide.{dec_lt}
use srx.Address.{is_ip_address}
use srx.Crawler.Paths.{validate_path}
use srx.Dashboard.Fields.{starts_with_slash}
use srx.Dashboard.Escape.{is_crawl_path}
use srx.Crawler.Url.Targets.{HostText, PortText, IsPath, IsWebUrl, target_url-IsWebUrl}
use srx.Crawler.Url.{
  SplitUrl, validate_url, is_plain, checked_url, host_of, is_web_scheme, is_port_zero, is_host,
  is_hostname, request_path, target_url, host_text, port_text,
}
use srx.Crawler.Fetch.{Read, bytes, Response, Libraries, texts}

abbrev lab_split : String → Result SplitUrl
lab_split url = ok (record {
  scheme = "http";
  hostname = some "lab";
  username = none;
  password = none;
  fragment = "";
  port = ok none;
  path = "/a";
  query = "";
})

abbrev lab : Libraries
lab = record {
  urljoin = λ url href. ok href;
  urlsplit = lab_split;
  sniff = λ body. none;
  decode = λ charset body. texts (body ∷ []);
  tokens = λ ts. some [];
  late_in_text = false;
  late_at_end = false;
}

-- Two pieces, and then the end.
small_reads : ℕ → ℕ → Read
small_reads zero n = bytes (take n (72 ∷ 105 ∷ []))
small_reads (suc zero) n = bytes (take n (33 ∷ []))
small_reads (suc (suc i)) n = bytes []

abbrev small : Response
small = record {
  status = 200;
  content_encoding = none;
  media_type = "text/plain";
  charset = none;
  content_length = some "3";
  transfer_encoding = none;
  reads = small_reads;
  expired = λ i. false;
}

abbrev lab_parsed : SplitUrl
lab_parsed = record {
  scheme = "http";
  hostname = some "lab";
  username = none;
  password = none;
  fragment = "";
  port = ok none;
  path = "/a";
  query = "";
}

lab_target : target_url lab_split (λ a. a) "lab" "/a" "http" (some (pos 80)) ≡ ok "http://lab:80/a"
unfolding target_url host_text port_text is_hostname decimal digits_from ascii dec_lt validate_url
    is_plain checked_url host_of is_web_scheme is_port_zero is_host is_ip_address all any split
    request_path validate_path starts_with_slash is_crawl_path
lab_target = refl

target_url-IsWebUrl_example :
    (host : String) × (tail : String) × (parsed : SplitUrl) × HostText (λ a. a) "lab" host
    × PortText (some (pos 80)) tail
    × IsPath "/a"
    × ("http://lab:80/a" ≡ "http" ++ ("://" ++ (host ++ (tail ++ "/a"))))
    × (validate_url lab_split "http://lab:80/a" ≡ ok parsed)
    × (lab_split "http://lab:80/a" ≡ ok parsed)
    × IsWebUrl "http://lab:80/a" parsed
target_url-IsWebUrl_example =
    target_url-IsWebUrl lab_split (λ a. a) "lab" "/a" "http" (some (pos 80)) "http://lab:80/a"
      lab_target
