-- ===== src/Ping/Monitor/Records.antt =====
-- What the counters, the raw samples and the buckets say of the probes that were made.
use srx.Prelude.{ℕ, ◌+◌, ◌≤◌, ◌≡◌, refl, Option, none, some, List, [], ◌∷◌, ◌++◌, length, arith}
use srx.Collector.Buffer.{newest}
use srx.Ping.{Floats, Window, add_to_bucket}
use srx.Ping.Accounts.{Sample, Accounts, answered, empty, probes}
use srx.Ping.Monitor.{Config, Probe, Monitor, Round, Block, record_round}

module _ {R : Type 0} ⦃f : Floats R⦄ where
  pub answered-append : (xs ys : List (Sample R)) → answered (xs ++ ys) ≡ answered xs + answered ys
  unfolding answered
  answered-append [] ys = omega arith
  answered-append ((ts, none) ∷ xs) ys = answered-append xs ys
  answered-append ((ts, some rtt) ∷ xs) ys = omega (arith, answered-append xs ys)

  pub answered-le : (xs : List (Sample R)) → answered xs ≤ length xs
  unfolding answered
  answered-le [] = omega arith
  answered-le ((ts, none) ∷ xs) = omega (arith, answered-le xs)
  answered-le ((ts, some rtt) ∷ xs) = omega (arith, answered-le xs)

  pub probes-snoc :
      (cap sec : ℕ) (log : List (Sample R)) (w : Window R) (now : ℕ) (rtt : Option R)
      → probes cap sec w (log ++ (now, rtt) ∷ [])
        ≡ add_to_bucket cap sec (probes cap sec w log) now rtt
  unfolding probes
  probes-snoc cap sec [] w now rtt = refl
  probes-snoc cap sec ((ts, r) ∷ log) w now rtt =
      probes-snoc cap sec log (add_to_bucket cap sec w ts r) now rtt

  -- The probe has recorded exactly these samples.
  pub record Holds (c : Config) (p : Probe R) (log : List (Sample R)) : Type 0 where
    pub all_sent : p.sent ≡ length log
    pub all_recv : p.recv ≡ answered log
    pub kept : p.samples ≡ newest c.history log
    pub filled : p.window ≡ probes c.buckets c.bucket_sec empty log

  -- The state after the rounds of `worker`.
  pub after_rounds : Config → Monitor R → List (Round R) → Monitor R
  after_rounds c m [] = m
  after_rounds c m (r ∷ rounds) = after_rounds c (record_round c m r) rounds

  abbrev pub small_sample : Round R → Sample R
  small_sample r = (r.now, r.rtt)

  abbrev pub big_sample : Round R → Sample R
  big_sample r = (r.now, r.brtt)

  -- A block that tells the truth about these samples, and the window behind it.
  pub record Tells (c : Config) (b : Block R) (w : Window R) (log : List (Sample R)) : Type 0 where
    pub sent_all : b.sent ≡ length log
    pub recv_all : b.recv ≡ answered log
    pub lost_rest : b.lost + b.recv ≡ b.sent
    pub newest_kept : b.samples ≡ newest c.history log
    pub accounts : Accounts c.buckets w (length log) (answered log)
