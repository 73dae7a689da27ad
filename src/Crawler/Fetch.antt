-- ===== src/Crawler/Fetch.antt =====
-- `crawl_page` of generators/web_crawler.py. The connection is given: whether it fails, the response's
-- status and headers, what each read of the body meets, and when the deadline passes. So are the
-- codecs, the search for a charset in HTML and the reading of HTML into tokens.
pub mod Answers
pub mod Outcomes
pub mod Delivery
mod Examples
use Prim.Native.String.{◌++◌ as append}
use srx.Prelude.{
  ℕ, zero, suc, ◌+◌, ◌-◌, ◌≤◌, Bool, true, false, not, ◌&&◌, ◌||◌, Option, none, some, is_some,
  String, List, [], ◌∷◌, ◌++◌, all, leb, ltb, nat_eq, length, take, min, contains, eq_string, ◌==◌,
  Result, ok, err, value_error, assertion_error, ◌>>=◌, if◌then◌else◌,
}
use srx.Prelude.Int.{pos_part}
use srx.Prelude.Text.{codes, lower, strip_left, strip_right, is_digit, digits_value}
use srx.Limits.{Argument, whole, other}
use srx.Crawler.{Split, PageParser, Token, characters, new, feed}
use srx.Crawler.Paths.{validate_limits}
use srx.Crawler.Url.{SplitUrl, validate_url}

-- Why a crawl failed: a check of the code, or an exception of a library with its text.
pub data Problem : Type 0 where
  redirect encoding content_length framing byte_limit mismatch late : Problem
  bad_status : ℕ → Problem
  raised : String → Problem

-- What `response.read1` meets: bytes, none at the end; an exception; or IncompleteRead with its bytes.
pub data Read : Type 0 where
  bytes : List ℕ → Read
  fails : String → Read
  incomplete : List ℕ → String → Read

-- A response: the status and the headers that are read, the media type (at most 128 characters of it) and the charset that
-- `email.message.Message` finds, what each round's read meets for the number of bytes it asks for, and
-- whether the deadline has passed at a round.
pub record Response : Type 0 where
  pub status : ℕ
  pub content_encoding : Option String
  pub media_type : String
  pub charset : Option String
  pub content_length : Option String
  pub transfer_encoding : Option String
  pub reads : ℕ → ℕ → Read
  pub expired : ℕ → Bool

pub data Exchange : Type 0 where
  unreachable : String → Exchange
  answers : Response → Exchange

-- What a codec makes of the body: there is none of that name; the texts of its pieces; an exception that
-- the extraction catches, with its text; or an AssertionError, which it does not catch.
pub data Decoding : Type 0 where
  no_codec asserts : Decoding
  refuses : String → Decoding
  texts : List (List ℕ) → Decoding

-- The libraries behind the extraction, and whether the deadline passes in it, before any other exception,
-- and at the end. `tokens` is none where HTMLParser raises AssertionError.
pub record Libraries : Type 0 where
  pub urljoin : String → String → Result String
  pub urlsplit : String → Result SplitUrl
  pub sniff : List ℕ → Option String
  pub decode : String → List ℕ → Decoding
  pub tokens : List (List ℕ) → Option (List Token)
  pub late_in_text : Bool
  pub late_at_end : Bool

pub record Crawl : Type 0 where
  pub url : String
  pub status_code : Option ℕ
  pub body : List ℕ
  pub response_complete : Bool
  pub truncated : Bool
  pub title : List ℕ
  pub text : List ℕ
  pub links : List String
  pub output_truncated : Bool
  pub content_type : String
  pub charset : String
  pub declared : Bool
  pub succeeded : Bool
  pub error : Option Problem

-- `result` before the connection.
unfoldable pub initial : String → Crawl
initial url = record {
  url = url;
  status_code = none;
  body = [];
  response_complete = false;
  truncated = false;
  title = [];
  text = [];
  links = [];
  output_truncated = false;
  content_type = "";
  charset = "";
  declared = false;
  succeeded = false;
  error = none;
}

unfoldable pub is_identity : Option String → Bool
is_identity none = true
is_identity (some e) =
    let name = strip_right (strip_left (lower e)) in name == "" || name == "identity"

-- `int(length)` of a header of 1 to 20 digits
unfoldable pub expected_length : Option String → Result (Option ℕ)
expected_length none = ok none
expected_length (some l) =
    if all is_digit (codes l) && (leb 1 (length (codes l)) && leb (length (codes l)) 20)
    then ok (some (digits_value 0 (codes l)))
    else err value_error

-- Whether the code can tell where the body ends.
unfoldable pub is_framed : Option String → Option ℕ → Bool
is_framed none expected = true
is_framed (some e) expected =
    e == "" || (strip_right (strip_left (lower e)) == "chunked" && not (is_some expected))

-- A charset of more than 64 characters counts as none.
unfoldable pub declared_charset : Option String → Option String
declared_charset none = none
declared_charset (some c) = if c == "" || ltb 64 (length (codes c)) then none else some c

unfoldable pub charset_or : Option String → String
charset_or none = "utf-8"
charset_or (some c) = c

-- How the loop over the body ends: at its end, at the byte limit, or by an exception; with the body.
pub data Ending : Type 0 where
  finished over_limit timed_out : Ending
  broken : String → Ending

unfoldable pub equals : Option ℕ → ℕ → Bool
equals none n = false
equals (some e) n = nat_eq e n

-- The `while` loop, from one round on; none where the fuel runs out.
unfoldable pub read_body : Response → Option ℕ → ℕ → ℕ → ℕ → List ℕ → Option (Ending × List ℕ)
read_body r expected limit zero i body = none
read_body r expected limit (suc fuel) i body = elim (r.expired i) [
  | true ↦ some (timed_out, body)
  | false ↦ elim (nat_eq (length body) limit) [
    | true ↦ some (if equals expected (length body) then finished else over_limit, body)
    | false ↦ elim (r.reads i (min 16384 (limit - length body))) [
      | bytes [] ↦ some (finished, body)
      | bytes (b ∷ bs) ↦ read_body r expected limit fuel (suc i) (body ++ b ∷ bs)
      | fails e ↦ some (broken e, body)
      | incomplete partial e ↦ some (broken e, body ++ take (limit - length body) partial)
    ]
  ]
]

unfoldable pub failed : Crawl → Problem → Crawl
failed c e = record c { error = some e }

unfoldable pub is_success : ℕ → Bool
is_success status = leb 200 status && ltb status 300

unfoldable pub completed : Response → Option ℕ → Crawl → Crawl
completed r expected c =
    let whole_body = record c { response_complete = true } in
    if is_some expected && not (equals expected (length c.body))
    then failed c mismatch
    else if is_success r.status
    then record whole_body { succeeded = true }
    else failed whole_body (bad_status r.status)

-- What stands behind the loop, for the body that it leaves.
unfoldable pub after_body : Response → Option ℕ → Crawl → Ending × List ℕ → Crawl
after_body r expected c (finished, body) = completed r expected (record c { body = body })
after_body r expected c (over_limit, body) =
    failed (record c { body = body; truncated = true }) byte_limit
after_body r expected c (timed_out, body) = failed (record c { body = body }) late
after_body r expected c (broken e, body) = failed (record c { body = body }) (raised e)

unfoldable pub receive : Response → Option ℕ → ℕ → Crawl → Option Crawl
receive r expected limit c =
    if is_framed r.transfer_encoding expected
    then (elim (read_body r expected limit (suc limit) 0 []) [
      | none ↦ none
      | some e ↦ some (after_body r expected c e)
    ])
    else some (failed c framing)

-- The headers, from the status on.
unfoldable pub with_headers : Response → Crawl → Crawl
with_headers r c = record c {
  content_type = r.media_type;
  charset = charset_or (declared_charset r.charset);
  declared = is_some (declared_charset r.charset);
}

unfoldable pub respond : Response → ℕ → Crawl → Option Crawl
respond r limit c =
    if leb 300 r.status && ltb r.status 400
    then some (failed c redirect)
    else if not (is_identity r.content_encoding)
    then some (failed c encoding)
    else elim (expected_length r.content_length) [
      | err e ↦ some (failed (with_headers r c) content_length)
      | ok expected ↦ receive r expected limit (with_headers r c)
    ]

unfoldable pub fetch : Exchange → ℕ → Crawl → Option Crawl
fetch (unreachable e) limit c = some (failed c (raised e))
fetch (answers r) limit c = respond r limit (record c { status_code = some r.status })

unfoldable pub begins : List ℕ → List ℕ → Bool
begins [] cs = true
begins (b ∷ bs) [] = false
begins (b ∷ bs) (c ∷ cs) = nat_eq b c && begins bs cs

-- The charset of the body: a byte order mark, the one that HTML names where no header does, or the
-- header's.
unfoldable pub body_charset : Libraries → Crawl → String
body_charset lib c =
    let sniffed : Option String =
      if not c.declared && c.content_type == "text/html"
      then lib.sniff (take 1024 c.body)
      else none in
    if begins (239 ∷ 187 ∷ 191 ∷ []) c.body
    then "utf-8-sig"
    else if begins (255 ∷ 254 ∷ []) c.body || begins (254 ∷ 255 ∷ []) c.body
    then "utf-16"
    else elim sniffed [ none ↦ c.charset | some s ↦ s ]

-- The name of the codec that is used and what it makes of the body: UTF-8 where the charset is unknown.
unfoldable pub decoded : Libraries → String → List ℕ → String × Decoding
decoded lib charset body = elim (lib.decode charset body) [
  | no_codec ↦ ("utf-8", lib.decode "utf-8" body)
  | asserts ↦ (charset, asserts)
  | refuses e ↦ (charset, refuses e)
  | texts ts ↦ (charset, texts ts)
]

-- What `_PageParser` reads of a split URL.
unfoldable pub as_split : Result SplitUrl → Result Split
as_split (err e) = err e
as_split (ok p) = ok (record {
  scheme = p.scheme;
  hostname = p.hostname;
  username = p.username;
  password = p.password;
})

unfoldable pub strip_spaces : List ℕ → List ℕ
strip_spaces [] = []
strip_spaces (c ∷ cs) = let rest = strip_spaces cs in if nat_eq c 32 then rest else c ∷ cs

unfoldable pub strip_end : List ℕ → List ℕ
strip_end [] = []
strip_end (c ∷ cs) = drop_blank c (strip_end cs)
  where
    drop_blank : ℕ → List ℕ → List ℕ
    drop_blank c [] = if nat_eq c 32 then [] else c ∷ []
    drop_blank c (d ∷ cs) = c ∷ d ∷ cs

-- The calls that the texts lead to: the tokens of HTML, or the characters alone.
unfoldable pub calls : Libraries → String → List (List ℕ) → Option (List Token)
calls lib content_type ts = if content_type == "text/plain" then some (plain ts) else lib.tokens ts
  where
    plain : List (List ℕ) → List Token
    plain [] = []
    plain (t ∷ ts) = characters t ∷ plain ts

unfoldable pub parsed_page : Libraries → Crawl → List Token → PageParser
parsed_page lib c tokens = feed lib.urljoin (λ l. as_split (lib.urlsplit l)) (new c.url) tokens

-- `result.update(...)`: the parser collapses white space, so only blanks are at the ends.
unfoldable pub with_page : Crawl → PageParser → Crawl
with_page c p = record c {
  title = strip_end (strip_spaces p.title);
  text = strip_end (strip_spaces p.text);
  links = p.links;
  output_truncated = p.output_truncated;
}

unfoldable pub is_readable : String → Bool
is_readable t = t == "text/html" || (t == "application/xhtml+xml" || t == "text/plain")

-- A crawl that failed in the extraction.
unfoldable pub spoiled : Crawl → Problem → Crawl
spoiled c e = record c { succeeded = false; error = some e }

-- What the reading of the body leads to, for the charset that is noted.
unfoldable pub extract_text : Libraries → Crawl → Decoding → Result Crawl
extract_text lib c no_codec = ok (spoiled c (raised "codec"))
extract_text lib c asserts = err assertion_error
extract_text lib c (refuses e) = ok (spoiled c (raised e))
extract_text lib c (texts ts) = elim (calls lib c.content_type ts) [
  | none ↦ err assertion_error
  | some tokens ↦ ok (with_page c (parsed_page lib c tokens))
]

-- An AssertionError leaves the extraction; every other exception is noted.
unfoldable pub extract : Libraries → Crawl → Result Crawl
extract lib c =
    if is_readable c.content_type && ltb 0 (length c.body)
    then (let (name, d) = decoded lib (body_charset lib c) c.body in
        let named = record c { charset = name } in
        if lib.late_in_text then ok (spoiled named late) else extract_text lib named d)
    else ok c

unfoldable pub at_end : Libraries → Crawl → Crawl
at_end lib c = if lib.late_at_end then spoiled c late else c

unfoldable pub limit_of : Argument → ℕ
limit_of (whole n) = pos_part n
limit_of other = 0

-- The checks come before the connection; none where the loop over the body does not end. An
-- AssertionError of the extraction leaves the call.
unfoldable pub crawl_page :
    Libraries → Exchange → String → Argument → Argument → Result (Option Crawl)
crawl_page lib x url max_bytes timeout = do
  l ← validate_limits max_bytes timeout
  p ← validate_url lib.urlsplit url
  (elim (fetch x (limit_of max_bytes) (initial url)) [
    | none ↦ ok none
    | some c ↦ extract lib c >>= λ d. ok (some (at_end lib d))
  ])
