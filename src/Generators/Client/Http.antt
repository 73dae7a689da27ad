-- ===== src/Generators/Client/Http.antt =====
-- `L7Client._raw_http` of generators/l7_client.py: the request, the loop that receives the response, and
-- the check of a test payload. Texts are ASCII, one byte for each character.
pub mod Receiving
mod Examples
use srx.Prelude.{
  ℕ, zero, suc, ◌+◌, Bool, true, false, not, ◌&&◌, ◌||◌, Option, none, some, String, List, [], ◌∷◌,
  ◌++◌, length, all, leb, ltb, nat_eq, Result, ok, err, runtime_error, os_error, ◌>>=◌, ◌>>◌, guard,
  if◌then◌else◌,
}
use srx.Prelude.Text.{codes, decimal, is_digit, digits_value, occurs}

abbrev pub response_limit : ℕ
response_limit = 1048576

abbrev pub crlf : List ℕ
crlf = 13 ∷ 10 ∷ []

-- The text of the request.
unfoldable pub request : String → String → Option String → List ℕ
request dst_ip path none =
    codes "GET "
    ++ (codes path
        ++ (codes " HTTP/1.1"
            ++ (crlf
                ++ (codes "Host: "
                    ++ (codes dst_ip ++ (crlf ++ (codes "Connection: close" ++ (crlf ++ crlf))))))))
request dst_ip path (some body) =
    codes "POST "
    ++ (codes path
        ++ (codes " HTTP/1.1"
            ++ (crlf
                ++ (codes "Host: "
                    ++ (codes dst_ip
                        ++ (crlf
                            ++ (codes "Content-Length: "
                                ++ (codes (decimal (length (codes body)))
                                    ++ (crlf
                                        ++ (codes "Connection: close"
                                            ++ (crlf ++ (crlf ++ codes body))))))))))))

-- What a round of the loop meets: bytes (none if the peer has closed), a reset, a timeout, the deadline,
-- or another failure of the socket.
pub data Part : Type 0 where
  chunk : List ℕ → Part
  reset timed_out deadline broken : Part

-- The loop: the response and whether the peer reset the connection.
unfoldable pub receive : ℕ → List ℕ → List Part → Result (List ℕ × Bool)
receive limit response [] = ok (response, false)
receive limit response (chunk [] ∷ parts) = ok (response, false)
receive limit response (chunk (b ∷ bytes) ∷ parts) =
    let more = receive limit (response ++ b ∷ bytes) parts in
    if ltb limit (length response + length (b ∷ bytes)) then err runtime_error else more
receive limit response (reset ∷ parts) = ok (response, true)
receive limit response (timed_out ∷ parts) = ok (response, false)
receive limit response (deadline ∷ parts) = ok (response, false)
receive limit response (broken ∷ parts) = err os_error

-- `response.split(b"\r\n", 1)[0]`
unfoldable pub first_line : List ℕ → List ℕ
first_line [] = []
first_line (a ∷ []) = a ∷ []
first_line (a ∷ b ∷ bytes) =
    let rest = first_line (b ∷ bytes) in if nat_eq a 13 && nat_eq b 10 then [] else a ∷ rest

abbrev pub is_blank : ℕ → Bool
is_blank c = nat_eq c 32 || (leb 9 c && leb c 13)

-- `line.split()`; the first argument is the word at hand.
unfoldable pub words : List ℕ → List ℕ → List (List ℕ)
words [] [] = []
words (c ∷ word) [] = (c ∷ word) ∷ []
words [] (c ∷ line) = let rest = words [] line in if is_blank c then rest else words (c ∷ []) line
words (d ∷ word) (c ∷ line) =
    let ended = (d ∷ word) ∷ words [] line in
    let longer = words (d ∷ word ++ c ∷ []) line in if is_blank c then ended else longer

-- The second word, if it is digits.
unfoldable pub status_of : List (List ℕ) → Option ℕ
unfolding digits_value
status_of (version ∷ (d ∷ code) ∷ reason) =
    if all is_digit (d ∷ code) then some (digits_value 0 (d ∷ code)) else none
status_of line = none

unfoldable pub is_block : Option ℕ → Bool
is_block none = false
is_block (some status) = nat_eq status 403 || nat_eq status 451

-- Whether the response shows the payload, or that it was blocked.
unfoldable pub is_conclusive : Option String → List ℕ → Bool → Bool
unfolding occurs first_line words status_of is_block
is_conclusive none response was_reset = true
is_conclusive (some expected) response was_reset =
    occurs (codes expected) response
    || was_reset
    || is_block (status_of (words [] (first_line response)))

-- What the connection does: it is refused, or it has an address and brings parts of a response.
pub data Connection : Type 0 where
  refused : Connection
  connected : String → ℕ → List Part → Connection

unfoldable pub raw_http : Connection → Option String → Result (String × ℕ)
unfolding receive is_conclusive
raw_http refused expected = err os_error
raw_http (connected src_ip src_port parts) expected = do
  r ← receive response_limit [] parts
  _ ← guard (is_conclusive expected r.0 r.1) runtime_error
  ok (src_ip, src_port)
