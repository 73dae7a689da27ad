-- ===== src/Ping/Link.antt =====
-- `parse_link` and the reading of ping's output in `ping_once` of pingapp/server.py. `float` of text is an
-- argument; it raises ValueError on text such as `1.2.3`.
use Prim.Native.Char.{code}
use srx.Prelude.{
  ℕ, zero, suc, Bool, true, false, not, ◌&&◌, ◌||◌, Option, none, some, String, List, [], ◌∷◌, leb,
  nat_eq, Result, ok, err, eq_string, ◌==◌, if◌then◌else◌,
}
use srx.Prelude.Int.{ℤ, pos, sub_ℕ}
use srx.Prelude.Text.{
  codes, is_digit, is_white, is_infix, lower, strip_left, strip_right, digits_value, all_white,
  decimal,
}
use srx.Collector.Scan.{◌>>=◌, all_chars, span, span1, char_of, char_in, size}
use srx.Collector.Line.{skip}

-- `re.search`: the first place where the expression matches.
unfoldable pub search {ℓ} : {A : Type ℓ} → (String → Option A) → String → Option A
search here String.[] = here String.[]
search here (String.◌∷◌ c s) = elim (here (String.◌∷◌ c s)) [
  | none ↦ search here s
  | some a ↦ some a
]

abbrev is_decimal : ℕ → Bool
is_decimal c = is_digit c || nat_eq c b'.'

-- `label` and blanks, then `([\d.]+)`, blanks and `unit`; the blanks are `\s*`.
unfoldable pub amount : String → String → String → Option String
amount label unit s = do
  rest ← skip label s
  d ← span1 is_decimal (span is_white rest).1
  u ← skip unit (span is_white d.1).1
  some d.0

-- `([0-9a-f:]{17})`, in either case
unfoldable pub is_mac : ℕ → Bool
is_mac c = is_digit c || (nat_eq c b':' || ((leb 97 c && leb c 102) || (leb 65 c && leb c 70)))

unfoldable pub take_mac : ℕ → String → Option String
take_mac zero s = some ""
take_mac (suc n) String.[] = none
take_mac (suc n) (String.◌∷◌ c s) =
    let rest = take_mac n s >>= λ m. some (String.◌∷◌ c m) in if is_mac (code c) then rest else none

-- `text` with its letters in lower case begins with the label.
unfoldable pub skip_any_case : String → String → Option String
skip_any_case String.[] s = some s
skip_any_case (String.◌∷◌ c p) String.[] = none
skip_any_case (String.◌∷◌ c p) (String.◌∷◌ d s) =
    let rest = skip_any_case p s in
    if lower (String.◌∷◌ c String.[]) == lower (String.◌∷◌ d String.[]) then rest else none

unfoldable pub bssid_at : String → Option String
bssid_at s = skip_any_case "Connected to " s >>= take_mac 17

-- `SSID:\s*(.+)`, stripped: the rest of the line behind the blanks; if only blanks are left, the group is
-- one of them, unless all are newlines.
unfoldable pub ssid_at : String → Option String
ssid_at s = skip "SSID:" s >>= λ rest.
    let black = (span is_white rest).1 in
    if all_white rest
    then (if all_chars (nat_eq 10) rest then none else some "")
    else some (strip_right (strip_left (span (λ c. not (nat_eq c 10)) black).0))

-- `signal:\s*(-?\d+)\s*dBm`
unfoldable pub digits_of : String → Option (ℕ × String)
digits_of s = span1 is_digit s >>= λ d. some (digits_value 0 (codes d.0), d.1)

unfoldable pub dbm : String → Option String
dbm s = skip "dBm" (span is_white s).1

unfoldable pub signal_at : String → Option ℤ
signal_at s = do
  rest ← skip "signal:" s
  let value = (span is_white rest).1
  (elim (char_of b'-' value) [
    | some v ↦ (digits_of v >>= λ n. dbm n.1 >>= λ u. some (sub_ℕ 0 n.0))
    | none ↦ (digits_of value >>= λ n. dbm n.1 >>= λ u. some (pos n.0))
  ])

pub record Link (R : Type 0) : Type 0 where
  pub connected : Bool
  pub ssid : Option String
  pub bssid : Option String
  pub freq : Option R
  pub signal : Option ℤ
  pub rx_bitrate : Option R
  pub tx_bitrate : Option R

module _ {R : Type 0} (float : String → Result R) where
  -- `float(m.group(1))` where the expression matches
  unfoldable pub read_float : Option String → Result (Option R)
  read_float none = ok none
  read_float (some d) = elim (float d) [ ok r ↦ ok (some r) | err e ↦ err e ]

  unfoldable pub no_link : Link R
  no_link = record {
    connected = false;
    ssid = none;
    bssid = none;
    freq = none;
    signal = none;
    rx_bitrate = none;
    tx_bitrate = none;
  }

  unfoldable pub is_found : Option String → Bool
  is_found none = false
  is_found (some b) = true

  unfoldable pub with_rates :
      String → Result (Option R) → Result (Option R) → Result (Option R) → Result (Link R)
  with_rates text (ok freq) (ok rx) (ok tx) = ok (record {
    connected = is_found (search bssid_at text);
    ssid = search ssid_at text;
    bssid = search bssid_at text;
    freq = freq;
    signal = search signal_at text;
    rx_bitrate = rx;
    tx_bitrate = tx;
  })
  with_rates text (ok freq) (ok rx) (err e) = err e
  with_rates text (ok freq) (err e) tx = err e
  with_rates text (err e) rx tx = err e

  unfoldable pub parse_link : String → Result (Link R)
  parse_link text =
      if is_infix "Not connected" text
      then ok no_link
      else with_rates text (read_float (search (amount "freq:" "") text))
          (read_float (search (amount "rx bitrate:" "MBit/s") text))
          (read_float (search (amount "tx bitrate:" "MBit/s") text))

  -- What a run of ping comes to: its output, or an exception with its text.
  pub data Ran : Type 0 where
    prints : String → Ran
    raises : String → Ran

  -- `time[=<]([\d.]+)\s*ms`
  unfoldable pub rtt_at : String → Option String
  rtt_at s = do
    rest ← skip "time" s
    rest ← char_in (λ c. nat_eq c b'=' || nat_eq c b'<') rest
    d ← span1 is_decimal rest
    u ← skip "ms" (span is_white d.1).1
    some d.0

  -- `ping_once`: the round trip or none, and the text of the error. `too_small` is the message that names
  -- the size, and `bad_float` that of the exception of `float`.
  unfoldable pub ping_once : String → String → Ran → Option R × String
  ping_once too_small bad_float (raises e) = (none, e)
  ping_once too_small bad_float (prints text) =
      let out = lower text in
      elim (search rtt_at out) [
        | some d ↦ elim (float d) [ ok r ↦ (some r, "") | err e ↦ (none, bad_float) ]
        | none ↦
            if is_infix "too long" out
            then (none, too_small)
            else if is_infix "frag needed" out
            then (none, "fragmentation needed (path MTU is smaller)")
            else (none, "timeout / no reply")
      ]

-- The command of `ping_once`, for a size if one is given.
unfoldable pub ping_cmd : String → Option ℕ → List String
ping_cmd target none = "ping" ∷ "-c" ∷ "1" ∷ "-W" ∷ "2" ∷ target ∷ []
ping_cmd target (some size) =
    "ping" ∷ "-c" ∷ "1" ∷ "-W" ∷ "2" ∷ "-s" ∷ decimal size ∷ "-M" ∷ "do" ∷ target ∷ []
