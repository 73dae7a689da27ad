-- ===== src/Dashboard/Run/Invariant.antt =====
-- The invariant of a run, and the steps that keep it.
use srx.Prelude.{
  ℕ, zero, suc, ◌+◌, ◌≤◌, ◌<◌, ◌≡◌, refl, inl, inr, Bool, true, false, Option, none, some, String,
  List, [], ◌∷◌, ◌++◌, length, length-append, length-drop, leb, drop, nat_eq, is_some, All,
  All-append, Bool-cases, Result, arith, if◌then◌else◌,
}
use srx.Prelude.Int.{ℤ}
use srx.Collector.{push}
use srx.Dashboard.Run.{
  Run, Event, Payload, Subscriber, Batch, Action, emits, finishes, subscribes, unsubscribes, reads,
  launches, stops, max_lines, max_line_chars, max_subscribers, active_subscribers, new, next_event,
  publish, take_chars, emit, finish, subscribe, discard, unsubscribe, read, launch, request_stop,
  Killed, step, play,
}
use srx.Dashboard.Run.Numbering.{Ring, InStep, QueueNumbered, push-Ring, offer_all-InStep}

-- The length of a text in characters.
abbrev pub chars : String → ℕ
chars String.[] = 0
chars (String.◌∷◌ c s) = suc (chars s)

-- The end event, where there is one, is the last that was published.
abbrev pub IsLast : Option Event → ℕ → Type 0
IsLast none n = Unit {0}
IsLast (some t) n = t.sequence ≡ n

pub record IsValid (r : Run) : Type 0 where
  pub ring : Ring max_lines r.events r.sequence
  pub queues : All (InStep r.sequence) r.subscribers
  pub lines_bounded : length r.lines ≤ max_lines
  pub lines_short : All (λ l. chars l ≤ max_line_chars) r.lines
  pub last : IsLast r.terminal r.sequence
  pub ended_iff : is_some r.ended ≡ is_some r.terminal

chars-take_chars : (n : ℕ) (s : String) → chars (take_chars n s) ≤ n
unfolding take_chars
chars-take_chars zero s = omega arith
chars-take_chars (suc n) String.[] = omega arith
chars-take_chars (suc n) (String.◌∷◌ c s) = omega (arith, chars-take_chars n s)

module _ {A : Type 0} (P : A → Type 0) where
  All-push : (cap : ℕ) (xs : List A) (x : A) → All P xs → P x → All P (push cap xs x)
  All-push cap xs x h p = elim (Bool-cases (nat_eq (length xs) cap)) [
    | inl full ↦ rw full (tail (xs ++ x ∷ []) (All-append P xs (x ∷ []) h (p, tt)))
    | inr room ↦ rw room (All-append P xs (x ∷ []) h (p, tt))
  ]
    where
      tail : (ys : List A) → All P ys → All P (drop 1 ys)
      tail [] q = tt
      tail (y ∷ ys) q = q.1

length-push-le :
    {A : Type 0} (cap : ℕ) (xs : List A) (x : A)
    → 0 < cap
    → length xs ≤ cap
    → length (push cap xs x) ≤ cap
length-push-le cap xs x pos h =
    ground (arith, length-append xs (x ∷ []), length-drop 1 (xs ++ x ∷ []))

new-IsValid :
    (id cmd : String) (sudo : Bool) (workload : Option String) (now : ℕ)
    → IsValid (new id cmd sudo workload now)
unfolding new
new-IsValid id cmd sudo workload now = record {
  ring = record { lo = 0; numbered = refl; full = omega arith };
  queues = tt;
  lines_bounded = omega arith;
  lines_short = tt;
  last = tt;
  ended_iff = refl;
}

publish-Ring :
    (r : Run) (p : Payload)
    → Ring max_lines r.events r.sequence
    → Ring max_lines (publish r p).events (publish r p).sequence
unfolding publish
publish-Ring r p h = push-Ring max_lines r.sequence r.events (next_event r p) (omega arith) refl h

publish-InStep :
    (r : Run) (p : Payload)
    → All (InStep r.sequence) r.subscribers
    → All (InStep (publish r p).sequence) (publish r p).subscribers
unfolding publish
publish-InStep r p h = offer_all-InStep r.sequence (next_event r p) r.subscribers refl h

IsLast-none : (o : Option Event) (n : ℕ) → is_some o ≡ false → IsLast o n
IsLast-none none n h = tt
IsLast-none (some t) n h = absurd (cc h)

emit-IsValid : (r : Run) (line : String) → IsValid r → IsValid (emit r line)
unfolding emit
emit-IsValid r line v = elim (Bool-cases (is_some r.terminal)) [
  | inl over ↦ rw over v
  | inr live ↦ rw live (record {
    ring = publish-Ring _ _ v.ring;
    queues = publish-InStep _ _ v.queues;
    lines_bounded =
        unfold publish in length-push-le max_lines r.lines cut (omega arith) v.lines_bounded;
    lines_short =
        unfold publish in
        All-push (λ l. chars l ≤ max_line_chars) max_lines r.lines cut v.lines_short
          (chars-take_chars max_line_chars line);
    last = unfold publish in IsLast-none r.terminal _ live;
    ended_iff = unfold publish in v.ended_iff;
  })
]
  where
    cut : String
    cut = take_chars max_line_chars line

finish-IsValid :
    (f : Run → Result Batch) (r : Run) (rc : ℤ) (now : ℕ) → IsValid r → IsValid (finish f r rc now)
unfolding finish
finish-IsValid f r rc now v = elim (Bool-cases (is_some r.terminal)) [
  | inl over ↦ rw over v
  | inr live ↦ rw live (record {
    ring = publish-Ring _ _ v.ring;
    queues = publish-InStep _ _ v.queues;
    lines_bounded = unfold publish in v.lines_bounded;
    lines_short = unfold publish in v.lines_short;
    last = unfold publish in refl;
    ended_iff = unfold publish in refl;
  })
]

InStep-left :
    (hi name : ℕ) (ss : List Subscriber) → All (InStep hi) ss → All (InStep hi) (discard name ss)
unfolding discard
InStep-left hi name [] v = tt
InStep-left hi name (s ∷ ss) v = elim (Bool-cases (nat_eq s.name name)) [
  | inl e ↦ rw e (record { follows = λ h. cc; bounded = v.0.bounded }, InStep-left hi name ss v.1)
  | inr e ↦ rw e (v.0, InStep-left hi name ss v.1)
]

QueueNumbered-drop :
    (lo hi : ℕ) (q : List (Option Event))
    → QueueNumbered lo q hi
    → (lo' : ℕ) × QueueNumbered lo' (drop 1 q) hi
QueueNumbered-drop lo hi [] h = (lo, h)
QueueNumbered-drop lo hi (none ∷ q) h = absurd h
QueueNumbered-drop lo hi (some e ∷ q) h = (lo + 1, h.1)

InStep-read :
    (hi name : ℕ) (ss : List Subscriber) → All (InStep hi) ss → All (InStep hi) (read name ss)
unfolding read
InStep-read hi name [] v = tt
InStep-read hi name (s ∷ ss) v = elim (Bool-cases (nat_eq s.name name)) [
  | inl e ↦ rw e (
    record {
      follows = λ on. let (lo, n) = v.0.follows on in QueueNumbered-drop lo hi s.queue n;
      bounded = omega (arith, v.0.bounded, length-drop 1 s.queue);
    },
    InStep-read hi name ss v.1,
  )
  | inr e ↦ rw e (v.0, InStep-read hi name ss v.1)
]

-- A step that changes only the subscribers.
resubscribe :
    (r : Run) (ss : List Subscriber)
    → IsValid r
    → All (InStep r.sequence) ss
    → IsValid (record r { subscribers = ss })
resubscribe r ss v h = record {
  ring = v.ring;
  queues = h;
  lines_bounded = v.lines_bounded;
  lines_short = v.lines_short;
  last = v.last;
  ended_iff = v.ended_iff;
}

subscribe-IsValid :
    (f : Run → Result Batch) (r : Run) (name last_id : ℕ)
    → IsValid r
    → IsValid (step f r (subscribes name last_id))
unfolding step subscribe
subscribe-IsValid f r name last_id v =
    elim (Bool-cases (leb max_subscribers (active_subscribers r))) [
      | inl full ↦ rw (full, step, subscribe) v
      | inr room ↦ elim (Bool-cases (is_some r.terminal)) [
        | inl over ↦ rw (room, step, subscribe) (rw over v)
        | inr live ↦
            rw (room, step, subscribe)
              (rw live (
                resubscribe r _ v
                  (record { follows = λ _. (r.sequence, refl); bounded = omega arith }, v.queues)))
      ]
    ]

in_branch : (b : Bool) (x y : Run) → IsValid x → IsValid y → IsValid (if b then x else y)
in_branch true x y h k = h
in_branch false x y h k = k

in_branch_first :
    (b : Bool) (x y : Run × Killed) → IsValid x.0 → IsValid y.0 → IsValid (if b then x else y).0
in_branch_first true x y h k = h
in_branch_first false x y h k = k

reflag : (r : Run) (p q : Bool) → IsValid r → IsValid (record r { proc = p; stop_requested = q })
reflag r p q v = record {
  ring = v.ring;
  queues = v.queues;
  lines_bounded = v.lines_bounded;
  lines_short = v.lines_short;
  last = v.last;
  ended_iff = v.ended_iff;
}

step-IsValid : (f : Run → Result Batch) (r : Run) (a : Action) → IsValid r → IsValid (step f r a)
unfolding step unsubscribe launch request_stop
step-IsValid f r (emits line) v = emit-IsValid r line v
step-IsValid f r (finishes rc now) v = finish-IsValid f r rc now v
step-IsValid f r (subscribes name last_id) v = subscribe-IsValid f r name last_id v
step-IsValid f r (unsubscribes name) v =
    resubscribe r _ v (InStep-left r.sequence name r.subscribers v.queues)
step-IsValid f r (reads name) v =
    resubscribe r _ v (InStep-read r.sequence name r.subscribers v.queues)
step-IsValid f r launches v = in_branch r.stop_requested _ _ v (reflag r true r.stop_requested v)
step-IsValid f r stops v = in_branch_first (is_some r.terminal) _ _ v (reflag r r.proc true v)

play-IsValid :
    (f : Run → Result Batch) (actions : List Action) (r : Run)
    → IsValid r
    → IsValid (play f r actions)
unfolding play
play-IsValid f [] r v = v
play-IsValid f (a ∷ actions) r v = play-IsValid f actions (step f r a) (step-IsValid f r a v)

-- After any sequence of locked sections on a new run: the ring holds the newest events, at most
-- 2000, with consecutive numbers up to the last; every queue that is still subscribed is empty or
-- ends with the last event and has no gap; queues, lines and the length of a line are bounded; the end
-- event, once published, is the last event; and the run has an end time exactly if it has an end event.
pub play-new-IsValid :
    (f : Run → Result Batch) (actions : List Action) (id cmd : String) (sudo : Bool)
    (workload : Option String) (now : ℕ)
    → IsValid (play f (new id cmd sudo workload now) actions)
play-new-IsValid f actions id cmd sudo workload now =
    play-IsValid f actions _ (new-IsValid id cmd sudo workload now)
