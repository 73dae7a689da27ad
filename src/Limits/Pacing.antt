-- ===== src/Limits/Pacing.antt =====
-- What the limits admit, and that a flood is paced within them.
use srx.Prelude.{
  ℕ, ◌*◌, ◌≤◌, ◌<◌, ◌≡◌, ◌↔◌, true, String, contains, eq_string, ◌==◌, ok, arith, if◌then◌else◌,
}
use srx.Prelude.Int.{pos, negsuc}
use srx.Limits.{
  Argument, whole, other, bounded_int, WorkloadLimits, flood, flood_types, interval_us,
}

-- An int is admitted exactly within its bounds, and nothing else is.
pub bounded_int_iff :
    (a : Argument) (maximum minimum n : ℕ)
    → (bounded_int a maximum minimum ≡ ok n) ↔ ((a ≡ whole (pos n)) × (minimum ≤ n) × (n ≤ maximum))
unfolding bounded_int
bounded_int_iff (whole (pos k)) maximum minimum n =
    ((λ h. (ground arith, ground arith, ground arith)), λ h. ground arith)
bounded_int_iff (whole (negsuc k)) maximum minimum n = ((λ h. absurd (cc h)), λ h. absurd (cc h.0))
bounded_int_iff other maximum minimum n = ((λ h. absurd (cc h)), λ h. absurd (cc h.0))

-- Rounding up keeps the packets at or below the requested rate.
pub interval_us-mul : (rate : ℕ) → 0 < rate → 1000000 ≤ interval_us rate * rate
unfolding interval_us
interval_us-mul rate h = grind arith

-- A flood is admitted exactly if its kind is known, its port, count and rate are in range (port 0
-- for ICMP alone), and its packets, paced at the rounded interval, take no longer than the limit.
pub flood_iff :
    (l : WorkloadLimits) (kind : String) (port count rate : ℕ)
    → (flood l kind (whole (pos port)) (whole (pos count)) (whole (pos rate)) ≡ ok tt) ↔ (
        (contains flood_types kind ≡ true)
        × ((if kind == "icmp" then 0 else 1) ≤ port)
        × (port ≤ 65535)
        × (1 ≤ count)
        × (count ≤ l.max_packets)
        × (1 ≤ rate)
        × (rate ≤ l.max_rate_pps)
        × (count * interval_us rate ≤ l.max_duration_s * 1000000))
unfolding flood
flood_iff l kind port count rate = ((λ h. ground arith), λ h. ground arith)
