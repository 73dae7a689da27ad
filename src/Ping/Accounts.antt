-- ===== src/Ping/Accounts.antt =====
-- What the buckets of a probe hold after any samples.
use srx.Prelude.{
  ℕ, suc, ◌+◌, ◌-◌, ◌*◌, ◌/◌, ◌≤◌, ◌≡◌, refl, ap, sym, ◌∙◌, inl, inr, Option, none, some, List, [],
  ◌∷◌, ◌++◌, ltb, nat_eq, length, All, All-append, is_some, Bool-cases, arith,
}
use srx.Collector.{push}
use srx.Collector.Buffer.{newest, drop-nil, push-newest}
use srx.Ping.{Floats, Bucket, Window, opened, folded, add_to_bucket}

-- A time and what the probe measured, none where it was lost.
abbrev pub Sample : Type 0 → Type 0
Sample R = ℕ × Option R

-- How many of the samples were answered.
unfoldable pub answered : {R : Type 0} → List (Sample R) → ℕ
answered [] = 0
answered ((ts, none) ∷ samples) = answered samples
answered ((ts, some rtt) ∷ samples) = suc (answered samples)

abbrev pub sent_in : {R : Type 0} → List (Bucket R) → ℕ
sent_in [] = 0
sent_in (b ∷ bs) = b.sent + sent_in bs

abbrev pub recv_in : {R : Type 0} → List (Bucket R) → ℕ
recv_in [] = 0
recv_in (b ∷ bs) = b.recv + recv_in bs

abbrev pub held : {R : Type 0} → Option (Bucket R) → List (Bucket R)
held none = []
held (some b) = b ∷ []

-- A bucket has at least one probe, no more answers than probes, and a least and a greatest round trip
-- exactly if there was an answer.
pub record IsSound {R : Type 0} (b : Bucket R) : Type 0 where
  pub some_sent : 1 ≤ b.sent
  pub recv_le : b.recv ≤ b.sent
  pub min_iff : is_some b.min ≡ ltb 0 b.recv
  pub max_iff : is_some b.max ≡ ltb 0 b.recv

-- The accounts of a window after `sent` probes with `recv` answers: all the buckets that were ever
-- closed, of which the window keeps the newest `cap`.
pub record Accounts {R : Type 0} (cap : ℕ) (w : Window R) (sent recv : ℕ) : Type 0 where
  pub full : List (Bucket R)
  pub kept : w.closed ≡ newest cap full
  pub all_sound : All IsSound full
  pub cur_sound : All IsSound (held w.cur)
  pub sent_total : sent_in full + sent_in (held w.cur) ≡ sent
  pub recv_total : recv_in full + recv_in (held w.cur) ≡ recv

module _ {R : Type 0} ⦃f : Floats R⦄ where
  -- The window after a list of samples.
  unfoldable pub probes : ℕ → ℕ → Window R → List (Sample R) → Window R
  probes cap sec w [] = w
  probes cap sec w ((ts, rtt) ∷ samples) = probes cap sec (add_to_bucket cap sec w ts rtt) samples

  folded-IsSound :
      (b : Bucket R) (rtt : Option R)
      → b.recv ≤ b.sent
      → is_some b.min ≡ ltb 0 b.recv
      → is_some b.max ≡ ltb 0 b.recv
      → IsSound (folded b rtt)
  unfolding folded
  folded-IsSound b none h p q = record {
    some_sent = omega arith;
    recv_le = omega arith;
    min_iff = p;
    max_iff = q;
  }
  folded-IsSound b (some rtt) h p q = record {
    some_sent = omega arith;
    recv_le = omega arith;
    min_iff = ground arith;
    max_iff = ground arith;
  }

  opened-IsSound : (id : ℕ) (rtt : Option R) → IsSound (folded (opened id) rtt)
  opened-IsSound id rtt =
      unfold opened in folded-IsSound (opened id) rtt (omega arith) (ground arith) (ground arith)

  sent_in-append : (xs ys : List (Bucket R)) → sent_in (xs ++ ys) ≡ sent_in xs + sent_in ys
  sent_in-append [] ys = omega arith
  sent_in-append (x ∷ xs) ys = omega (arith, sent_in-append xs ys)

  recv_in-append : (xs ys : List (Bucket R)) → recv_in (xs ++ ys) ≡ recv_in xs + recv_in ys
  recv_in-append [] ys = omega arith
  recv_in-append (x ∷ xs) ys = omega (arith, recv_in-append xs ys)

  -- One more probe, answered or not.
  abbrev more : Option R → ℕ → ℕ
  more none n = n
  more (some rtt) n = n + 1

  folded-counts :
      (b : Bucket R) (rtt : Option R)
      → ((folded b rtt).sent ≡ b.sent + 1) × ((folded b rtt).recv ≡ more rtt b.recv)
  unfolding folded
  folded-counts b none = (refl, refl)
  folded-counts b (some rtt) = (refl, refl)

  more-add : (rtt : Option R) (m n : ℕ) → m + more rtt n ≡ more rtt (m + n)
  more-add none m n = refl
  more-add (some rtt) m n = omega arith

  module _ (cap sec : ℕ) (ts : ℕ) (rtt : Option R) (sent recv : ℕ) where
    abbrev bid : ℕ
    bid = ts / sec * sec

    -- A sample into a bucket that is or becomes the current one.
    current :
        (bs : List (Bucket R)) (b : Bucket R) (full : List (Bucket R))
        → bs ≡ newest cap full
        → All IsSound full
        → IsSound (folded b rtt)
        → sent_in full + b.sent ≡ sent
        → recv_in full + b.recv ≡ recv
        → Accounts cap
            (record { closed = bs; cur = some (folded b rtt) })
            (sent + 1)
            (more rtt recv)
    current bs b full k s c p q = record {
      full = full;
      kept = k;
      all_sound = s;
      cur_sound = (c, tt);
      sent_total = omega (arith, (folded-counts b rtt).0);
      recv_total =
          omega
            (arith, (folded-counts b rtt).1, more-add rtt (recv_in full) b.recv, ap (more rtt) q);
    }

    by_current :
        (closed : List (Bucket R)) (o : Option (Bucket R))
        → Accounts cap (record { closed = closed; cur = o }) sent recv
        → Accounts cap
            (add_to_bucket cap sec (record { closed = closed; cur = o }) ts rtt)
            (sent + 1)
            (more rtt recv)
    unfolding add_to_bucket opened
    by_current closed none a =
        current closed (opened bid) a.full a.kept a.all_sound (opened-IsSound bid rtt)
          (omega (arith, a.sent_total)) (omega (arith, a.recv_total))
    by_current closed (some b) a =
        let c = a.cur_sound.0 in
        elim (Bool-cases (nat_eq b.id bid)) [
          | inl same ↦ rw same (
              current closed b a.full a.kept a.all_sound
                (folded-IsSound b rtt c.recv_le c.min_iff c.max_iff) (omega (arith, a.sent_total))
                (omega (arith, a.recv_total)))
          | inr other ↦ rw other (
              current (push cap closed b) (opened bid) (a.full ++ b ∷ [])
                (ap (λ bs. push cap bs b) a.kept ∙ push-newest cap a.full b)
                (All-append IsSound a.full (b ∷ []) a.all_sound (c, tt)) (opened-IsSound bid rtt)
                (omega (arith, a.sent_total, sent_in-append a.full (b ∷ [])))
                (omega (arith, a.recv_total, recv_in-append a.full (b ∷ []))))
        ]

  recount :
      (cap : ℕ) (w : Window R) (m n m' n' : ℕ)
      → Accounts cap w m n
      → m ≡ m'
      → n ≡ n'
      → Accounts cap w m' n'
  recount cap w m n m' n' a p q = record {
    full = a.full;
    kept = a.kept;
    all_sound = a.all_sound;
    cur_sound = a.cur_sound;
    sent_total = a.sent_total ∙ p;
    recv_total = a.recv_total ∙ q;
  }

  probes-from :
      (cap sec : ℕ) (samples : List (Sample R)) (w : Window R) (sent recv : ℕ)
      → Accounts cap w sent recv
      → Accounts cap (probes cap sec w samples) (sent + length samples) (recv + answered samples)
  unfolding probes answered
  probes-from cap sec [] w sent recv a = recount cap w sent recv _ _ a (omega arith) (omega arith)
  probes-from cap sec ((ts, none) ∷ samples) w sent recv a =
      recount cap _ _ _ _ _
        (probes-from cap sec samples _ _ _ (by_current cap sec ts none sent recv w.closed w.cur a))
        (omega arith) refl
  probes-from cap sec ((ts, some rtt) ∷ samples) w sent recv a =
      recount cap _ _ _ _ _
        (probes-from cap sec samples _ _ _
          (by_current cap sec ts (some rtt) sent recv w.closed w.cur a))
        (omega arith) (omega arith)

  abbrev pub empty : Window R
  empty = record { closed = []; cur = none }

  -- After any samples every bucket is sound, and all that were ever filled account for each probe and
  -- each answer once; the window keeps the current one and the newest `cap` of the closed ones.
  pub probes-Accounts :
      (cap sec : ℕ) (samples : List (Sample R))
      → Accounts cap (probes cap sec empty samples) (length samples) (answered samples)
  probes-Accounts cap sec samples =
      recount cap _ _ _ _ _
        (probes-from cap sec samples empty 0 0 (record {
          full = [];
          kept = sym (drop-nil (0 - cap));
          all_sound = tt;
          cur_sound = tt;
          sent_total = refl;
          recv_total = refl;
        }))
        (omega arith) (omega arith)
