-- ===== src/Dashboard/Run/Numbering.antt =====
-- The invariant of a run: consecutive sequence numbers in the ring and in every queue that is still
-- subscribed, bounded buffers, and an end event that is the last.
use srx.Prelude.{
  ℕ, ◌+◌, ◌≤◌, ◌<◌, ◌≡◌, refl, inl, inr, true, Option, none, some, List, [], ◌∷◌, ◌++◌, length,
  length-append, drop, min, nat_eq, ltb, All, Bool-cases, arith,
}
use srx.Collector.{push}
use srx.Dashboard.Run.{Event, Subscriber, queue_size, offer, offer_all}

-- The events have the numbers lo + 1 to hi, in order.
abbrev pub Numbered : ℕ → List Event → ℕ → Type 0
Numbered lo [] hi = lo ≡ hi
Numbered lo (e ∷ es) hi = (e.sequence ≡ lo + 1) × Numbered (lo + 1) es hi

-- The same of a queue, which also holds no marker.
abbrev pub QueueNumbered : ℕ → List (Option Event) → ℕ → Type 0
QueueNumbered lo [] hi = lo ≡ hi
QueueNumbered lo (none ∷ q) hi = ⊥
QueueNumbered lo (some e ∷ q) hi = (e.sequence ≡ lo + 1) × QueueNumbered (lo + 1) q hi

pub length-Numbered : (lo hi : ℕ) (es : List Event) → Numbered lo es hi → lo + length es ≡ hi
length-Numbered lo hi [] h = omega arith
length-Numbered lo hi (e ∷ es) h = omega (arith, length-Numbered (lo + 1) hi es h.1)

pub Numbered-snoc :
    (lo hi : ℕ) (es : List Event) (e : Event)
    → Numbered lo es hi
    → e.sequence ≡ hi + 1
    → Numbered lo (es ++ e ∷ []) (hi + 1)
Numbered-snoc lo hi [] e h q = (rw h q, rw h refl)
Numbered-snoc lo hi (x ∷ es) e h q = (h.0, Numbered-snoc (lo + 1) hi es e h.1 q)

QueueNumbered-snoc :
    (lo hi : ℕ) (q : List (Option Event)) (e : Event)
    → QueueNumbered lo q hi
    → e.sequence ≡ hi + 1
    → QueueNumbered lo (q ++ some e ∷ []) (hi + 1)
QueueNumbered-snoc lo hi [] e h p = (rw h p, rw h refl)
QueueNumbered-snoc lo hi (none ∷ q) e h p = absurd h
QueueNumbered-snoc lo hi (some x ∷ q) e h p = (h.0, QueueNumbered-snoc (lo + 1) hi q e h.1 p)

-- A ring of at most `cap` events that ends with the number `hi`; `lo` is what went before.
pub record Ring (cap : ℕ) (es : List Event) (hi : ℕ) : Type 0 where
  pub lo : ℕ
  pub numbered : Numbered lo es hi
  pub full : length es ≡ min hi cap

pub push-Ring :
    (cap hi : ℕ) (es : List Event) (e : Event)
    → 0 < cap
    → e.sequence ≡ hi + 1
    → Ring cap es hi
    → Ring cap (push cap es e) (hi + 1)
push-Ring cap hi es e pos q r = elim (Bool-cases (nat_eq (length es) cap)) [
  | inl at_cap ↦ rw at_cap (shift es r at_cap)
  | inr room ↦ rw room (record {
    lo = r.lo;
    numbered = Numbered-snoc r.lo hi es e r.numbered q;
    full = ground (arith, length-append es (e ∷ []), r.full);
  })
]
  where
    shift :
        (es : List Event)
        → Ring cap es hi
        → nat_eq (length es) cap ≡ true
        → Ring cap (drop 1 (es ++ e ∷ [])) (hi + 1)
    shift [] r h = absurd (ground arith)
    shift (x ∷ es) r h = record {
      lo = r.lo + 1;
      numbered = Numbered-snoc (r.lo + 1) hi es e r.numbered.1 q;
      full = ground (arith, length-append es (e ∷ []), r.full);
    }

-- A queue that is subscribed ends with the newest event; one that is not is left to its reader.
pub record InStep (hi : ℕ) (s : Subscriber) : Type 0 where
  pub follows : s.subscribed ≡ true → (lo : ℕ) × QueueNumbered lo s.queue hi
  pub bounded : length s.queue ≤ queue_size

offer-InStep :
    (hi : ℕ) (e : Event) (s : Subscriber)
    → e.sequence ≡ hi + 1
    → InStep hi s
    → InStep (hi + 1) (offer e s)
unfolding offer
offer-InStep hi e s q v = elim (Bool-cases s.subscribed) [
  | inl on ↦ elim (Bool-cases (ltb (length s.queue) queue_size)) [
    | inl room ↦
        rw (on, room)
          (record {
            follows =
                λ _. let (lo, n) = v.follows on in (lo, QueueNumbered-snoc lo hi s.queue e n q);
            bounded = ground (arith, length-append s.queue (some e ∷ []));
          })
    | inr full ↦ rw (on, full) (record { follows = λ h. cc; bounded = omega arith })
  ]
  | inr off ↦ rw off (record { follows = λ h. cc; bounded = v.bounded })
]

pub offer_all-InStep :
    (hi : ℕ) (e : Event) (ss : List Subscriber)
    → e.sequence ≡ hi + 1
    → All (InStep hi) ss
    → All (InStep (hi + 1)) (offer_all e ss)
unfolding offer_all
offer_all-InStep hi e [] q v = tt
offer_all-InStep hi e (s ∷ ss) q v = (offer-InStep hi e s q v.0, offer_all-InStep hi e ss q v.1)
