-- ===== src/Ping.antt =====
-- pingapp/server.py: the buckets of one kind of probe, the series and the summary drawn from them, and
-- the quiet window. Times are whole seconds. Floats are an interface; the ping process is not modelled.
pub mod Accounts
pub mod Merging
pub mod Totals
pub mod Link
pub mod Monitor
pub mod State
pub mod Snapshot
mod Examples
use srx.Prelude.{
  ℕ, zero, suc, ◌+◌, ◌-◌, ◌*◌, ◌/◌, Bool, true, false, not, ◌&&◌, ◌||◌, Option, none, some, List,
  [], ◌∷◌, ◌++◌, map, keep, leb, ltb, nat_eq, length, take, drop, if◌then◌else◌,
}
use srx.Collector.{push}

-- What the code uses of floats.
pub record Floats (R : Type 0) : Type 0 where
  pub of_ℕ : ℕ → R
  pub add : R → R → R
  pub mul : R → R → R
  pub div : R → R → R
  pub less : R → R → Bool

pub record Bucket (R : Type 0) : Type 0 where
  pub id : ℕ
  pub sent : ℕ
  pub recv : ℕ
  pub sum : R
  pub min : Option R
  pub max : Option R

-- `buckets[kind]` and `cur[kind]`
pub record Window (R : Type 0) : Type 0 where
  pub closed : List (Bucket R)
  pub cur : Option (Bucket R)

pub record Point (R : Type 0) : Type 0 where
  pub t : ℕ
  pub avg : Option R
  pub min : Option R
  pub max : Option R
  pub sent : ℕ
  pub recv : ℕ
  pub loss_pct : R

pub record Summary (R : Type 0) : Type 0 where
  pub sent : ℕ
  pub recv : ℕ
  pub lost : ℕ
  pub loss_pct : R
  pub avg : Option R
  pub min : Option R
  pub max : Option R
  pub availability : R
  pub outage_min : ℕ
  pub window_min : ℕ
  pub hours : ℕ
  pub series : List (Point R)

-- 23:59 to 08:00, the end excluded; both branches of the test, for any two bounds in minutes.
unfoldable pub in_window : ℕ → ℕ → ℕ → Bool
in_window a b now = if ltb b a then leb a now || ltb now b else leb a now && ltb now b

-- `in_quiet_hours` at an hour and a minute of local time.
unfoldable pub in_quiet_hours : ℕ → ℕ → Bool
unfolding in_window
in_quiet_hours hour minute = in_window (23 * 60 + 59) (8 * 60 + 0) (hour * 60 + minute)

module _ {R : Type 0} ⦃f : Floats R⦄ where
  -- `rtt if b["min"] is None else min(b["min"], rtt)`
  unfoldable pub lower : Option R → R → R
  lower none x = x
  lower (some a) x = if f.less x a then x else a

  unfoldable pub higher : Option R → R → R
  higher none x = x
  higher (some a) x = if f.less a x then x else a

  unfoldable pub opened : ℕ → Bucket R
  opened id = record { id = id; sent = 0; recv = 0; sum = f.of_ℕ 0; min = none; max = none }

  -- One sample into a bucket.
  unfoldable pub folded : Bucket R → Option R → Bucket R
  folded b none = record b { sent = b.sent + 1 }
  folded b (some rtt) = record b {
    sent = b.sent + 1;
    recv = b.recv + 1;
    sum = f.add b.sum rtt;
    min = some (lower b.min rtt);
    max = some (higher b.max rtt);
  }

  -- `add_to_bucket`, with the bounds BUCKETS and BUCKET_SEC.
  unfoldable pub add_to_bucket : ℕ → ℕ → Window R → ℕ → Option R → Window R
  add_to_bucket cap sec w ts rtt =
      let bid = ts / sec * sec in
      elim w.cur [
        | none ↦ record w { cur = some (folded (opened bid) rtt) }
        | some b ↦
            if nat_eq b.id bid
            then record w { cur = some (folded b rtt) }
            else record { closed = push cap w.closed b; cur = some (folded (opened bid) rtt) }
      ]

  unfoldable pub present : Option (Bucket R) → List (Bucket R)
  present none = []
  present (some b) = b ∷ []

  -- `100.0 * part / whole if whole else 0.0`
  unfoldable pub percent : ℕ → ℕ → R
  percent part whole =
      if nat_eq whole 0 then f.of_ℕ 0 else f.div (f.mul (f.of_ℕ 100) (f.of_ℕ part)) (f.of_ℕ whole)

  unfoldable pub point_of : Bucket R → Point R
  point_of b = record {
    t = b.id;
    avg = if nat_eq b.recv 0 then none else some (f.div b.sum (f.of_ℕ b.recv));
    min = b.min;
    max = b.max;
    sent = b.sent;
    recv = b.recv;
    loss_pct = percent (b.sent - b.recv) b.sent;
  }

  unfoldable pub bucket_series : Window R → ℕ → ℕ → List (Point R)
  bucket_series w now hours =
      map point_of (keep (λ b. not (ltb (b.id + hours * 3600) now)) (w.closed ++ present w.cur))

  -- `[x for x in xs if x is not None]`
  unfoldable pub present_values : List (Option R) → List R
  present_values [] = []
  present_values (none ∷ xs) = present_values xs
  present_values (some x ∷ xs) = x ∷ present_values xs

  unfoldable pub fold_min : R → List R → R
  fold_min a [] = a
  fold_min a (x ∷ xs) = fold_min (if f.less x a then x else a) xs

  unfoldable pub fold_max : R → List R → R
  fold_max a [] = a
  fold_max a (x ∷ xs) = fold_max (if f.less a x then x else a) xs

  unfoldable pub fold_sum : R → List R → R
  fold_sum a [] = a
  fold_sum a (x ∷ xs) = fold_sum (f.add a x) xs

  unfoldable pub least : List R → Option R
  least [] = none
  least (x ∷ xs) = some (fold_min x xs)

  unfoldable pub greatest : List R → Option R
  greatest [] = none
  greatest (x ∷ xs) = some (fold_max x xs)

  unfoldable pub average : List R → Option R
  average [] = none
  average (x ∷ xs) = some (f.div (fold_sum (f.of_ℕ 0) (x ∷ xs)) (f.of_ℕ (length (x ∷ xs))))

  -- `sum(b["sent"] for b in ser)`
  unfoldable pub total_sent : List (Point R) → ℕ
  total_sent [] = 0
  total_sent (p ∷ ser) = p.sent + total_sent ser

  unfoldable pub total_recv : List (Point R) → ℕ
  total_recv [] = 0
  total_recv (p ∷ ser) = p.recv + total_recv ser

  -- A chunk that starts at `t`.
  unfoldable pub merged : ℕ → List (Point R) → Point R
  merged t chunk = record {
    t = t;
    avg = average (present_values (map (λ c. c.avg) chunk));
    min = least (present_values (map (λ c. c.min) chunk));
    max = greatest (present_values (map (λ c. c.max) chunk));
    sent = total_sent chunk;
    recv = total_recv chunk;
    loss_pct = percent (total_sent chunk - total_recv chunk) (total_sent chunk);
  }

  -- The loop over the chunks; each round shortens the series, so its length is fuel enough.
  unfoldable pub merge_chunks : ℕ → ℕ → List (Point R) → List (Point R)
  merge_chunks zero factor ser = []
  merge_chunks (suc fuel) factor [] = []
  merge_chunks (suc fuel) factor (p ∷ ser) =
      merged p.t (take factor (p ∷ ser)) ∷ merge_chunks fuel factor (drop factor (p ∷ ser))

  unfoldable pub downsample_series : List (Point R) → ℕ → List (Point R)
  downsample_series ser factor = if leb factor 1 then ser else merge_chunks (length ser) factor ser

  unfoldable pub day_summary : Window R → ℕ → ℕ → ℕ → Summary R
  day_summary w now hours downsample =
      let ser = bucket_series w now hours in
      record {
        sent = total_sent ser;
        recv = total_recv ser;
        lost = total_sent ser - total_recv ser;
        loss_pct = percent (total_sent ser - total_recv ser) (total_sent ser);
        avg = average (present_values (map (λ c. c.avg) ser));
        min = least (present_values (map (λ c. c.min) ser));
        max = greatest (present_values (map (λ c. c.max) ser));
        availability = percent (total_recv ser) (total_sent ser);
        outage_min = length (keep (λ c. nat_eq c.recv 0 && ltb 0 c.sent) ser);
        window_min = length ser;
        hours = hours;
        series = downsample_series ser downsample;
      }
