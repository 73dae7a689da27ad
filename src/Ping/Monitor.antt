-- ===== src/Ping/Monitor.antt =====
-- The counters and samples of pingapp/server.py: the locked section of `worker`, `record_wifi` and
-- `record_wifi_error`, the blocks of `snapshot`, and how `wifi_worker` cuts the output of its session. A
-- difference of floats without its sign is an argument.
pub mod Records
pub mod Session
mod Examples
use srx.Prelude.{
  ℕ, zero, suc, ◌+◌, ◌-◌, Bool, true, false, not, ◌&&◌, ◌||◌, Option, none, some, is_some, String,
  List, [], ◌∷◌, ◌++◌, map, ltb, nat_eq, length, Result, ok, err, if◌then◌else◌,
}
use srx.Prelude.Int.{ℤ}
use srx.Prelude.Text.{is_infix}
use srx.Collector.{push}
use srx.Ping.{
  Floats, Window, add_to_bucket, present_values, least, greatest, average, fold_sum, percent,
}
use srx.Ping.Link.{Link, parse_link}
use srx.Ping.Accounts.{Sample, empty}

-- HISTORY, BUCKETS and BUCKET_SEC
pub record Config : Type 0 where
  pub history : ℕ
  pub buckets : ℕ
  pub bucket_sec : ℕ

-- The counters, the raw samples and the buckets of one kind of probe.
pub record Probe (R : Type 0) : Type 0 where
  pub sent : ℕ
  pub recv : ℕ
  pub samples : List (Sample R)
  pub window : Window R

pub record Monitor (R : Type 0) : Type 0 where
  pub default : Probe R
  pub big : Probe R
  pub big_err : String

-- One round of `worker`: the time, the two round trips and the error of the second.
pub record Round (R : Type 0) : Type 0 where
  pub now : ℕ
  pub rtt : Option R
  pub brtt : Option R
  pub berr : String

-- `wifi_state`, with `wifi_samples` and the buckets of the link.
pub record Wifi (R : Type 0) : Type 0 where
  pub connected : Bool
  pub ssid : Option String
  pub bssid : Option String
  pub freq : Option R
  pub signal : Option ℤ
  pub rx_bitrate : Option R
  pub tx_bitrate : Option R
  pub error : String
  pub last_ok : Option ℕ
  pub samples_ok : ℕ
  pub samples_total : ℕ
  pub samples : List (ℕ × Option ℤ × Option R × Option R)
  pub window : Window R

module _ {R : Type 0} ⦃f : Floats R⦄ where
  unfoldable pub idle : Probe R
  idle = record { sent = 0; recv = 0; samples = []; window = empty }

  unfoldable pub starting : Monitor R
  starting = record { default = idle; big = idle; big_err = "" }

  -- What a sample does to its kind of probe.
  unfoldable pub probed : Config → Probe R → Sample R → Probe R
  probed c p (now, rtt) = record {
    sent = p.sent + 1;
    recv = if is_some rtt then p.recv + 1 else p.recv;
    samples = push c.history p.samples (now, rtt);
    window = add_to_bucket c.buckets c.bucket_sec p.window now rtt;
  }

  -- The locked section of `worker`.
  unfoldable pub record_round : Config → Monitor R → Round R → Monitor R
  record_round c m r = record {
    default = probed c m.default (r.now, r.rtt);
    big = probed c m.big (r.now, r.brtt);
    big_err = r.berr;
  }

  unfoldable pub wifi_starting : Wifi R
  wifi_starting = record {
    connected = false;
    ssid = none;
    bssid = none;
    freq = none;
    signal = none;
    rx_bitrate = none;
    tx_bitrate = none;
    error = "starting";
    last_ok = none;
    samples_ok = 0;
    samples_total = 0;
    samples = [];
    window = empty;
  }

  unfoldable pub as_float : (ℤ → R) → Option ℤ → Option R
  as_float of_ℤ none = none
  as_float of_ℤ (some n) = some (of_ℤ n)

  -- The locked section of `record_wifi`.
  unfoldable pub record_link : Config → (ℤ → R) → Wifi R → ℕ → Link R → Wifi R
  record_link c of_ℤ w now info =
      let good = info.connected && is_some info.signal in
      record {
        connected = info.connected;
        ssid = info.ssid;
        bssid = info.bssid;
        freq = info.freq;
        signal = info.signal;
        rx_bitrate = info.rx_bitrate;
        tx_bitrate = info.tx_bitrate;
        error = if good then "" else "not connected";
        last_ok = if good then some now else w.last_ok;
        samples_ok = if good then w.samples_ok + 1 else w.samples_ok;
        samples_total = w.samples_total + 1;
        samples = push c.history w.samples (now, info.signal, info.rx_bitrate, info.tx_bitrate);
        window = add_to_bucket c.buckets c.bucket_sec w.window now (as_float of_ℤ info.signal);
      }

  unfoldable pub record_wifi_error : Config → Wifi R → ℕ → String → Wifi R
  record_wifi_error c w now msg = record w {
    error = msg;
    connected = false;
    signal = none;
    samples_total = w.samples_total + 1;
    samples = push c.history w.samples (now, none, none, none);
    window = add_to_bucket c.buckets c.bucket_sec w.window now none;
  }

  -- `abs(ok[i] - ok[i - 1])` for all i from 1 on
  unfoldable pub gaps : (R → R → R) → List R → List R
  gaps gap [] = []
  gaps gap (x ∷ []) = []
  gaps gap (x ∷ y ∷ xs) = gap y x ∷ gaps gap (y ∷ xs)

  unfoldable pub jitter : (R → R → R) → List R → Option R
  jitter gap xs =
      if ltb 1 (length xs)
      then some (f.div (fold_sum (f.of_ℕ 0) (gaps gap xs)) (f.of_ℕ (length xs - 1)))
      else none

  -- `data[-1]["rtt"] if data else None`
  unfoldable pub last_rtt : List (Sample R) → Option R
  last_rtt [] = none
  last_rtt (s ∷ []) = s.1
  last_rtt (s ∷ t ∷ samples) = last_rtt (t ∷ samples)

pub record Block (R : Type 0) : Type 0 where
  pub sent : ℕ
  pub recv : ℕ
  pub lost : ℕ
  pub loss_pct : R
  pub last : Option R
  pub min : Option R
  pub max : Option R
  pub avg : Option R
  pub jitter : Option R
  pub samples : List (Sample R)

module _ {R : Type 0} ⦃f : Floats R⦄ where
  unfoldable pub round_trips : List (Sample R) → List R
  round_trips samples = present_values (map (λ s. s.1) samples)

  -- `block`; it is called where `recv` is at most `sent`.
  unfoldable pub block : (R → R → R) → List (Sample R) → ℕ → ℕ → Block R
  block gap samples sent recv = record {
    sent = sent;
    recv = recv;
    lost = sent - recv;
    loss_pct = percent (sent - recv) sent;
    last = last_rtt samples;
    min = least (round_trips samples);
    max = greatest (round_trips samples);
    avg = average (round_trips samples);
    jitter = jitter gap (round_trips samples);
    samples = samples;
  }

  -- `snapshot`, the block of one kind of probe.
  unfoldable pub probe_block : (R → R → R) → Probe R → Block R
  probe_block gap p = block gap p.samples p.sent p.recv

-- The texts that `wifi_worker` records from the lines of its session, and the lines it holds at the end.
-- With each line comes whether the quiet hours have begun, which ends the loop.
unfoldable pub recorded : List String → List (Bool × String) → List (List String)
recorded held [] = []
recorded held ((quiet, line) ∷ lines) =
    let flushed = recorded [] lines in
    let kept = recorded (held ++ line ∷ []) lines in
    if quiet
    then []
    else if is_infix "===MARK===" line
    then (elim held [ [] ↦ flushed | l ∷ ls ↦ (l ∷ ls) ∷ flushed ])
    else kept
