-- ===== src/Ping/State.antt =====
-- `save_state` and `load_state` of pingapp/server.py: what of the state outlives a restart. The state that
-- is written is given back as it was; a file that cannot be read or written is not modelled.
mod Examples
use srx.Prelude.{
  ℕ, zero, suc, ◌+◌, ◌-◌, ◌*◌, ◌≤◌, ◌≡◌, refl, ap, sym, ◌∙◌, inl, inr, Bool, true, false, not,
  Option, none, some, String, List, [], ◌∷◌, ◌++◌, keep, length-keep-le, leb, ltb, nat_eq, length,
  length-append, Bool-cases, arith, if◌then◌else◌,
}
use mathlib.Core.List.{append_assoc, append-nil}
use srx.Collector.{push}
use srx.Ping.{Floats, Bucket, Window}
use srx.Ping.Monitor.{Config}

-- `buckets` and `cur`
pub record Windows (R : Type 0) : Type 0 where
  pub default : Window R
  pub big : Window R
  pub wifi : Window R

pub record Stats : Type 0 where
  pub sent : ℕ
  pub recv : ℕ
  pub big_sent : ℕ
  pub big_recv : ℕ
  pub big_err : String
  pub started : ℕ

pub record State (R : Type 0) : Type 0 where
  pub windows : Windows R
  pub stats : Stats

-- `time.time() - RETAIN_DAYS * 24 * 3600`; a bucket's id is not negative.
unfoldable pub floor_of : ℕ → ℕ → ℕ
floor_of now retain_days = now - retain_days * 24 * 3600

module _ {R : Type 0} where
  unfoldable pub appended : ℕ → ℕ → List (Bucket R) → List (Bucket R) → List (Bucket R)
  appended cap floor closed [] = closed
  appended cap floor closed (b ∷ bs) =
      appended cap floor (if leb floor b.id then push cap closed b else closed) bs

  unfoldable pub load_window : ℕ → ℕ → Window R → Window R → Window R
  load_window cap floor w saved = record {
    closed = appended cap floor w.closed saved.closed;
    cur = saved.cur;
  }

  -- `load_state` of a process that has just begun, from the state that was saved.
  unfoldable pub load_state : Config → ℕ → ℕ → State R → State R → State R
  load_state c retain_days now fresh saved =
      let floor = floor_of now retain_days in
      record {
        windows = record {
          default = load_window c.buckets floor fresh.windows.default saved.windows.default;
          big = load_window c.buckets floor fresh.windows.big saved.windows.big;
          wifi = load_window c.buckets floor fresh.windows.wifi saved.windows.wifi;
        };
        stats = saved.stats;
      }

  appended_lem :
      (cap floor : ℕ) (closed bs : List (Bucket R))
      → length closed + length bs ≤ cap
      → appended cap floor closed bs ≡ closed ++ keep (λ b. leb floor b.id) bs
  unfolding appended keep
  appended_lem cap floor closed [] h = sym (append-nil closed)
  appended_lem cap floor closed (b ∷ bs) h = elim (Bool-cases (leb floor b.id)) [
    | inr old ↦ rw old (appended_lem cap floor closed bs (omega arith))
    | inl new ↦
        let room : nat_eq (length closed) cap ≡ false = ground arith in
        rw (new, room)
          (appended_lem cap floor (closed ++ b ∷ []) bs
              (omega (arith, length-append closed (b ∷ [])))
            ∙ append_assoc closed (b ∷ []) (keep (λ b. leb floor b.id) bs))
  ]

  abbrev pub empty_window : Window R
  empty_window = record { closed = []; cur = none }

  abbrev pub fresh : Stats → State R
  fresh s = record {
    windows = record { default = empty_window; big = empty_window; wifi = empty_window };
    stats = s;
  }

  -- The window without the buckets that began before the floor.
  abbrev pub recent : ℕ → Window R → Window R
  recent floor w = record { closed = keep (λ b. leb floor b.id) w.closed; cur = w.cur }

  abbrev pub Fits : ℕ → State R → Type 0
  Fits cap s =
      (length s.windows.default.closed ≤ cap)
      × (length s.windows.big.closed ≤ cap)
      × (length s.windows.wifi.closed ≤ cap)

  load_window_lem :
      (cap floor : ℕ) (w : Window R)
      → length w.closed ≤ cap
      → load_window cap floor empty_window w ≡ recent floor w
  unfolding load_window
  load_window_lem cap floor w h =
      ap (λ closed. record { closed = closed; cur = w.cur })
        (appended_lem cap floor [] w.closed (omega arith))

  -- A restart keeps the counters, the current buckets and, in their order, exactly the closed buckets that
  -- began within the days of retention; no window holds more than its bound before.
  pub load_state-fresh :
      (c : Config) (retain_days now : ℕ) (s : Stats) (saved : State R)
      → Fits c.buckets saved
      → load_state c retain_days now (fresh s) saved ≡ record {
        windows = record {
          default = recent (floor_of now retain_days) saved.windows.default;
          big = recent (floor_of now retain_days) saved.windows.big;
          wifi = recent (floor_of now retain_days) saved.windows.wifi;
        };
        stats = saved.stats;
      }
  unfolding load_state
  load_state-fresh c retain_days now s saved h =
      let floor = floor_of now retain_days in
      rw
        (
          load_window_lem c.buckets floor saved.windows.default h.0,
          load_window_lem c.buckets floor saved.windows.big h.1,
          load_window_lem c.buckets floor saved.windows.wifi h.2,
        )
        refl
