-- ===== src/Ping/Snapshot.antt =====
-- `wifi_block` and `snapshot` of pingapp/server.py: what the page is given. The settings that are passed
-- through (target, interval, host, interface) are left out.
use srx.Prelude.{ℕ, ◌+◌, ◌-◌, ◌*◌, Bool, Option, none, String, List, [], ◌∷◌, map}
use srx.Prelude.Int.{ℤ}
use srx.Ping.{
  Floats, Summary, present_values, least, greatest, average, percent, day_summary, in_quiet_hours,
}
use srx.Ping.Monitor.{Monitor, Wifi, Block, probe_block, as_float}

-- A raw sample of the link: the time, the signal and the two rates.
abbrev pub LinkSample : Type 0 → Type 0
LinkSample R = ℕ × Option ℤ × Option R × Option R

pub record WifiBlock (R : Type 0) : Type 0 where
  pub connected : Bool
  pub ssid : Option String
  pub bssid : Option String
  pub freq : Option R
  pub error : String
  pub rx_bitrate : Option R
  pub tx_bitrate : Option R
  pub last : Option ℤ
  pub min : Option R
  pub max : Option R
  pub avg : Option R
  pub sent : ℕ
  pub recv : ℕ
  pub loss_pct : R
  pub samples : List (LinkSample R)

pub record Week (R : Type 0) : Type 0 where
  pub default : Summary R
  pub big : Summary R
  pub wifi : Summary R

pub record Snapshot (R : Type 0) : Type 0 where
  pub uptime : ℕ
  pub default : Block R
  pub big : Block R
  pub big_total : ℕ
  pub big_error : String
  pub paused : Bool
  pub wifi : WifiBlock R
  pub day : Week R
  pub week : Week R

-- What is read at one time: the clock, the hour and the minute, and when the counters began.
pub record Clock : Type 0 where
  pub now : ℕ
  pub hour : ℕ
  pub minute : ℕ
  pub started : ℕ

module _ {R : Type 0} ⦃f : Floats R⦄ where
  unfoldable pub last_signal : List (LinkSample R) → Option ℤ
  last_signal [] = none
  last_signal (s ∷ []) = s.1
  last_signal (s ∷ t ∷ samples) = last_signal (t ∷ samples)

  unfoldable pub signals : (ℤ → R) → List (LinkSample R) → List R
  signals of_ℤ samples = present_values (map (λ s. as_float of_ℤ s.1) samples)

  unfoldable pub wifi_block : (ℤ → R) → Wifi R → WifiBlock R
  wifi_block of_ℤ w = record {
    connected = w.connected;
    ssid = w.ssid;
    bssid = w.bssid;
    freq = w.freq;
    error = w.error;
    rx_bitrate = w.rx_bitrate;
    tx_bitrate = w.tx_bitrate;
    last = last_signal w.samples;
    min = least (signals of_ℤ w.samples);
    max = greatest (signals of_ℤ w.samples);
    avg = average (signals of_ℤ w.samples);
    sent = w.samples_total;
    recv = w.samples_ok;
    loss_pct = percent (w.samples_total - w.samples_ok) w.samples_total;
    samples = w.samples;
  }

  -- The three summaries over some hours.
  unfoldable pub summaries : Monitor R → Wifi R → ℕ → ℕ → ℕ → Week R
  summaries m w now hours downsample = record {
    default = day_summary m.default.window now hours downsample;
    big = day_summary m.big.window now hours downsample;
    wifi = day_summary w.window now hours downsample;
  }

  unfoldable pub snapshot : (R → R → R) → (ℤ → R) → ℕ → ℕ → Clock → Monitor R → Wifi R → Snapshot R
  snapshot gap of_ℤ big_size retain_days c m w = record {
    uptime = c.now - c.started;
    default = probe_block gap m.default;
    big = probe_block gap m.big;
    big_total = big_size + 28;
    big_error = m.big_err;
    paused = in_quiet_hours c.hour c.minute;
    wifi = wifi_block of_ℤ w;
    day = summaries m w c.now 24 1;
    week = summaries m w c.now (24 * retain_days) 15;
  }
