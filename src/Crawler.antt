-- ===== src/Crawler.antt =====
-- `_PageParser` of generators/web_crawler.py. Title and text are code points; the innermost hidden tag
-- is first. `urljoin` and `urlsplit` are arguments, and so is the reading of HTML into tokens.
pub mod Bounds
pub mod Paths
pub mod Url
pub mod Fetch
mod Examples
use srx.Prelude.{
  ℕ, zero, suc, Bool, true, false, not, ◌&&◌, ◌||◌, Option, none, some, is_some, String, List, [],
  ◌∷◌, ◌++◌, any, leb, ltb, nat_eq, length, contains, take, eq_string, ◌==◌, Result, ok, err,
  if◌then◌else◌,
}
use srx.Prelude.Text.{codes}
use srx.Prelude.Text.{is_white}

-- What the parser reads of the result of `urlsplit`.
pub record Split : Type 0 where
  pub scheme : String
  pub hostname : Option String
  pub username : Option String
  pub password : Option String

pub record PageParser : Type 0 where
  pub url : String
  pub title : List ℕ
  pub text : List ℕ
  pub links : List String
  pub in_title : Bool
  pub hidden : List String
  pub output_truncated : Bool

abbrev pub Attributes : Type 0
Attributes = List (String × Option String)

-- The calls that HTMLParser makes.
pub data Token : Type 0 where
  start_tag : String → Attributes → Token
  end_tag : String → Token
  characters : List ℕ → Token

unfoldable pub new : String → PageParser
new url = record {
  url = url;
  title = [];
  text = [];
  links = [];
  in_title = false;
  hidden = [];
  output_truncated = false;
}

unfoldable pub ends_with_space : List ℕ → Bool
ends_with_space [] = false
ends_with_space (c ∷ []) = nat_eq c 32
ends_with_space (c ∷ d ∷ cs) = ends_with_space (d ∷ cs)

unfoldable pub text_boundary : PageParser → PageParser
unfolding ends_with_space
text_boundary p =
    if ltb 0 (length p.text) && (not (ends_with_space p.text) && ltb (length p.text) 2048)
    then record p { text = p.text ++ 32 ∷ [] }
    else p

-- `dict(attrs).get("href")`: the last of equal names counts, and a name without a value is None.
unfoldable pub href_of : Attributes → Option String
href_of [] = none
href_of ((k, v) ∷ attrs) =
    let rest = href_of attrs in if any_href attrs then rest else if k == "href" then v else none
  where
    any_href : Attributes → Bool
    any_href [] = false
    any_href ((k, v) ∷ attrs) = k == "href" || any_href attrs

has_host : Option String → Bool
has_host none = false
has_host (some h) = not (h == "")

-- A link that is kept: HTTP or HTTPS, with a host, without credentials and control characters.
unfoldable pub is_link : String → Split → Bool
unfolding has_host
is_link link parsed =
    (parsed.scheme == "http" || parsed.scheme == "https")
    && (has_host parsed.hostname
        && (not (is_some parsed.username)
            && (not (is_some parsed.password)
                && not (any (λ c. ltb c 32 || nat_eq c 127) (codes link)))))

-- `re.sub(r"\s+", " ", data)`; the flag tells whether the character before was white.
unfoldable pub collapsed : Bool → List ℕ → List ℕ
unfolding is_white
collapsed after_white [] = []
collapsed after_white (c ∷ cs) =
    let rest = collapsed (is_white c) cs in
    if is_white c then (if after_white then rest else 32 ∷ rest) else c ∷ rest

unfoldable pub lstrip : List ℕ → List ℕ
lstrip [] = []
lstrip (c ∷ cs) = let rest = lstrip cs in if nat_eq c 32 then rest else c ∷ cs

unfoldable pub combined : List ℕ → List ℕ → List ℕ
unfolding ends_with_space
combined old text = old ++ (if ends_with_space old then lstrip text else text)

unfoldable pub is_hiding : String → Bool
is_hiding tag = tag == "script" || (tag == "style" || tag == "template")

unfoldable pub hides : List String → Bool
hides [] = false
hides (t ∷ hidden) = true

module _ (urljoin : String → String → Result String) (urlsplit : String → Result Split) where
  -- The part of the `a` tag behind the checks of the link.
  unfoldable pub add_link : PageParser → String → PageParser
  add_link p link =
      if contains p.links link
      then p
      else if ltb (length p.links) 20 && leb (length (codes link)) 1024
      then record p { links = p.links ++ link ∷ [] }
      else record p { output_truncated = true }

  unfoldable pub checked_link : PageParser → String → Result Split → PageParser
  checked_link p link (ok parsed) = if is_link link parsed then add_link p link else p
  checked_link p link (err e) = p

  unfoldable pub joined : PageParser → Result String → PageParser
  joined p (ok link) = checked_link p link (urlsplit link)
  joined p (err e) = p

  unfoldable pub anchor : PageParser → Option String → PageParser
  anchor p none = p
  anchor p (some href) =
      if href == ""
      then p
      else if ltb 2048 (length (codes href))
      then record p { output_truncated = true }
      else joined p (urljoin p.url href)

  unfoldable pub handle_starttag : PageParser → String → Attributes → PageParser
  unfolding is_hiding
  handle_starttag p tag attrs =
      let q : PageParser = if is_hiding tag then record p { hidden = tag ∷ p.hidden } else p in
      if hides q.hidden
      then q
      else let r : PageParser = if q.in_title then q else text_boundary q in
        let s : PageParser = if tag == "title" then record r { in_title = true } else r in
        if tag == "a" then anchor s (href_of attrs) else s

  unfoldable pub handle_endtag : PageParser → String → PageParser
  handle_endtag p tag = elim p.hidden [
    | [] ↦
        if tag == "title"
        then record p { in_title = false }
        else if p.in_title
        then p
        else text_boundary p
    | t ∷ hidden ↦ if tag == t then record p { hidden = hidden } else p
  ]

  unfoldable pub store : PageParser → List ℕ → PageParser
  store p [] = p
  store p (c ∷ text) =
      if p.in_title
      then record p {
        title = take 512 (combined p.title (c ∷ text));
        output_truncated = p.output_truncated || ltb 512 (length (combined p.title (c ∷ text)));
      }
      else record p {
        text = take 2048 (combined p.text (c ∷ text));
        output_truncated = p.output_truncated || ltb 2048 (length (combined p.text (c ∷ text)));
      }

  unfoldable pub handle_data : PageParser → List ℕ → PageParser
  handle_data p data_ = if hides p.hidden then p else store p (collapsed false data_)

  unfoldable pub handle : PageParser → Token → PageParser
  handle p (start_tag tag attrs) = handle_starttag p tag attrs
  handle p (end_tag tag) = handle_endtag p tag
  handle p (characters cs) = handle_data p cs

  -- The parser after all the tokens of a page.
  pub feed : PageParser → List Token → PageParser
  feed p [] = p
  feed p (t ∷ tokens) = feed (handle p t) tokens
