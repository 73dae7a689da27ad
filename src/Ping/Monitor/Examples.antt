-- ===== src/Ping/Monitor/Examples.antt =====
-- The monitor and the Wi-Fi session at small inputs, with hundredths as floats.
use srx.Prelude.{
  ℕ, ◌+◌, ◌*◌, ◌/◌, ◌≡◌, refl, true, none, some, String, List, [], ◌∷◌, ltb, Result, ok,
}
use srx.Prelude.Int.{negsuc}
use srx.Prelude.Text.{
  codes, digits_value, is_infix, is_white, lower, ascii, strip_left, strip_right, all_white,
}
use native.Mathlib.Decide.{dec_lt}
use srx.Collector.Scan.{span, span1, in_front, nonempty, char_in, char_of}
use srx.Collector.Line.{skip}
use srx.Ping.{Floats}
use srx.Ping.Link.{
  Link, parse_link, with_rates, read_float, is_found, search, amount, bssid_at, take_mac,
  skip_any_case, is_mac, ssid_at, signal_at, digits_of, dbm, prints, ping_once, rtt_at,
}
use srx.Ping.Monitor.{Config, Round}
use srx.Ping.Monitor.Session.{Call, sees, errs}

instance abbrev hundredths : Floats ℕ
hundredths = record {
  of_ℕ = λ n. n * 100;
  add = λ a b. a + b;
  mul = λ a b. a * b / 100;
  div = λ a b. a * 100 / b;
  less = ltb;
}

abbrev config : Config
config = record { history = 2; buckets = 10; bucket_sec = 60 }

abbrev rounds : List (Round ℕ)
rounds =
    record { now = 60; rtt = some 1200; brtt = none; berr = "timeout / no reply" }
    ∷ record { now = 61; rtt = some 1300; brtt = some 1500; berr = "" }
    ∷ record { now = 125; rtt = none; brtt = some 1500; berr = "" }
    ∷ []

-- The echo comes first, and `iw` may write nothing.
abbrev blocks : List (List String)
blocks = [] ∷ ("Connected to x\n" ∷ "freq: 5180\n" ∷ []) ∷ [] ∷ ("Not connected.\n" ∷ []) ∷ []

abbrev digits : String → Result ℕ
digits d = ok (digits_value 0 (codes d))

abbrev link_text : String
link_text =
    "Connected to aa:BB:cc:dd:ee:ff (on wlan0)\n\tSSID: my net\n\tfreq: 5180\n\tsignal: -51 dBm\n\ttx bitrate: 866 MBit/s\n"

abbrev lab_link : Link ℕ
lab_link = record {
  connected = true;
  ssid = some "my net";
  bssid = some "aa:BB:cc:dd:ee:ff";
  freq = some 5180;
  signal = some (negsuc 50);
  rx_bitrate = none;
  tx_bitrate = some 866;
}

link_read : parse_link digits link_text ≡ ok lab_link
unfolding parse_link with_rates read_float is_found search amount bssid_at take_mac skip_any_case
    is_mac ssid_at signal_at digits_of dbm skip span span1 in_front nonempty char_in char_of
    is_infix lower ascii dec_lt strip_left strip_right all_white is_white digits_value
link_read = refl

ping_read : ping_once digits "" "" (prints "64 bytes: ttl=64 TIME=12 ms") ≡ (some 12, "")
unfolding ping_once rtt_at search skip span span1 in_front nonempty char_in lower ascii dec_lt
    is_white digits_value
ping_read = refl

abbrev calls : List (Call ℕ)
calls = sees 60 lab_link ∷ errs 63 "ssh stream ended" ∷ []
