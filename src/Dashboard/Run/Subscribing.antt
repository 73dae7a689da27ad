-- ===== src/Dashboard/Run/Subscribing.antt =====
-- `Run.subscribe`: what a new reader has in its backlog and its queue.
use srx.Prelude.{
  map, String, suc, not, ◌&&◌, and-true, nat_eq, nat_eq_iff, eq_string, ◌==◌, length-append, subst,
  ap, sym, ℕ, ◌+◌, ◌≤◌, ◌<◌, ◌≡◌, refl, ◌⊎◌, inl, inr, ◌≢◌, Bool, true, false, Option, none, some,
  List, [], ◌∷◌, ◌++◌, length, ltb, leb, is_some, any, Bool-cases, Result, ok, arith, if◌then◌else◌,
}
use srx.Dashboard.Run.{
  Payload, log, end, reset, same_batch, same_payload, queue_size, offer, offer_all, take_chars,
  max_line_chars, next_event, publish, Run, Event, Subscription, Batch, emits, max_lines,
  max_subscribers, active_subscribers, replay, holds, with_terminal, subscribe, emit, Subscriber,
  step, play,
}
use srx.Prelude.Int.{eq_ℤ}
use srx.Collector.{push}
use mathlib.Core.List.{append_assoc, append-nil}
use srx.Dashboard.Run.Numbering.{Numbered-snoc, Numbered}
use srx.Dashboard.Run.Invariant.{IsValid}
use srx.Dashboard.Run.Streams.{replay-Numbered}

-- `t` is one of the events.
abbrev pub IsIn : Event → List Event → Type 0
IsIn t [] = ⊥
IsIn t (e ∷ es) = (e ≡ t) ⊎ IsIn t es

same_batch_lem : (a b : Option Batch) → same_batch a b ≡ true → a ≡ b
unfolding same_batch
same_batch_lem none none h = refl
same_batch_lem none (some b) h = cc
same_batch_lem (some a) none h = cc
same_batch_lem (some a) (some b) h =
    let (i, h1) = and-true (a.id == b.id) _ h in
    let (p, h2) = and-true (nat_eq a.passed b.passed) _ h1 in
    let (f, t) = and-true (nat_eq a.failed b.failed) (nat_eq a.total b.total) h2 in
    let e1 = (eq_string.beq_iff a.id b.id).0 i in
    let e2 = (nat_eq_iff a.passed b.passed).0 p in
    let e3 = (nat_eq_iff a.failed b.failed).0 f in
    let e4 = (nat_eq_iff a.total b.total).0 t in
    λ i. some (record { id = e1 i; passed = e2 i; failed = e3 i; total = e4 i })

same_bool : (a b : Bool) → (if a then b else not b) ≡ true → a ≡ b
same_bool true true h = refl
same_bool true false h = cc
same_bool false true h = cc
same_bool false false h = refl

same_payload_lem : (a b : Payload) → same_payload a b ≡ true → a ≡ b
unfolding same_payload
same_payload_lem (log s) (log t) h = ap log ((eq_string.beq_iff s t).0 h)
same_payload_lem (log s) (end b) h = cc
same_payload_lem (log s) reset h = cc
same_payload_lem (end a) (log t) h = cc
same_payload_lem (end a) (end b) h =
    let (x, y) = and-true (a.rc == b.rc && nat_eq a.elapsed b.elapsed) _ h in
    let (p, q) = and-true (a.rc == b.rc) (nat_eq a.elapsed b.elapsed) x in
    let (z, w) = and-true (same_batch a.batch b.batch) _ y in
    let e1 = (eq_ℤ.beq_iff a.rc b.rc).0 p in
    let e2 = (nat_eq_iff a.elapsed b.elapsed).0 q in
    let e3 = same_batch_lem a.batch b.batch z in
    let e4 = same_bool a.history_error b.history_error w in
    λ i. end (record { rc = e1 i; elapsed = e2 i; batch = e3 i; history_error = e4 i })
same_payload_lem (end a) reset h = cc
same_payload_lem reset (log t) h = cc
same_payload_lem reset (end b) h = cc
same_payload_lem reset reset h = refl

holds-IsIn : (t : Event) (es : List Event) → holds t es ≡ true → IsIn t es
unfolding holds any
holds-IsIn t [] h = cc
holds-IsIn t (e ∷ es) h =
    elim (Bool-cases (nat_eq e.sequence t.sequence && same_payload e.payload t.payload)) [
      | inl same ↦
          let (n, p) = and-true (nat_eq e.sequence t.sequence) _ same in
          let e1 = (nat_eq_iff e.sequence t.sequence).0 n in
          let e2 = same_payload_lem e.payload t.payload p in
          inl (λ i. record { sequence = e1 i; payload = e2 i })
      | inr other ↦ inr (holds-IsIn t es (ground arith))
    ]

IsIn-append : (t : Event) (es : List Event) → IsIn t (es ++ t ∷ [])
IsIn-append t [] = inl refl
IsIn-append t (e ∷ es) = inr (IsIn-append t es)

with_terminal-IsIn : (t : Event) (es : List Event) → IsIn t (with_terminal (some t) es)
unfolding with_terminal
with_terminal-IsIn t es = elim (Bool-cases (holds t es)) [
  | inl there ↦ rw there (holds-IsIn t es there)
  | inr gone ↦ rw gone (IsIn-append t es)
]

-- The reader's queue is the first of the run's: it is subscribed, and the backlog and then the queue
-- hold exactly the events last_id + 1 to the newest, in order.
pub record Follows (name last_id : ℕ) (backlog : List Event) (r : Run) : Type 0 where
  pub queued : List Event
  pub others : List Subscriber
  pub first :
      r.subscribers ≡ record { name = name; queue = map some queued; subscribed = true } ∷ others
  pub numbered : Numbered last_id (backlog ++ queued) r.sequence

map-some-append :
    (es : List Event) (e : Event) → map some (es ++ e ∷ []) ≡ map some es ++ some e ∷ []
map-some-append [] e = refl
map-some-append (x ∷ es) e = ap (λ q. some x ∷ q) (map-some-append es e)

length-map-some : (es : List Event) → length (map some es) ≡ length es
length-map-some [] = refl
length-map-some (e ∷ es) = ap suc (length-map-some es)

emit-live :
    (f : Run → Result Batch) (r : Run) (line : String)
    → r.terminal ≡ none
    → step f r (emits line)
      ≡ publish
          (record r { lines = push max_lines r.lines (take_chars max_line_chars line) })
          (log (take_chars max_line_chars line))
unfolding step emit
emit-live f r line live = ground arith

offer_all-first :
    (name : ℕ) (event : Event) (queued : List Event) (others : List Subscriber)
    → length queued < queue_size
    → offer_all event (record { name = name; queue = map some queued; subscribed = true } ∷ others)
      ≡ record { name = name; queue = map some (queued ++ event ∷ []); subscribed = true }
        ∷ offer_all event others
unfolding offer_all offer
offer_all-first name event queued others room = rw (fits, map-some-append queued event) refl
  where
    fits : ltb (length (map some queued)) queue_size ≡ true
    fits = ground (arith, length-map-some queued)

module _ (f : Run → Result Batch) (name last_id : ℕ) (backlog : List Event) where
  emits-Follows :
      (lines : List String) (r : Run) (queued : List Event) (others : List Subscriber)
      → r.terminal ≡ none
      → r.subscribers ≡ record { name = name; queue = map some queued; subscribed = true } ∷ others
      → Numbered last_id (backlog ++ queued) r.sequence
      → length queued + length lines ≤ queue_size
      → Follows name last_id backlog (play f r (map emits lines))
  unfolding play publish
  emits-Follows [] r queued others live first numbered room = record {
    queued = queued;
    others = others;
    first = first;
    numbered = numbered;
  }
  emits-Follows (line ∷ lines) r queued others live first numbered room =
      let cut = take_chars max_line_chars line in
      let before : Run = record r { lines = push max_lines r.lines cut } in
      let event = next_event before (log cut) in
      let after = publish before (log cut) in
      let rest =
        emits-Follows lines after (queued ++ event ∷ []) (offer_all event others) live
          (rw first (offer_all-first name event queued others (omega arith)))
          (subst (λ es. Numbered last_id es (r.sequence + 1))
            (append_assoc backlog queued (event ∷ []))
            (Numbered-snoc last_id r.sequence (backlog ++ queued) event numbered refl))
          (omega (arith, length-append queued (event ∷ []))) in
      subst (λ q. Follows name last_id backlog (play f q (map emits lines)))
        (sym (emit-live f r line live)) rest

-- What a reader that is not refused is sent: of a run that has ended, its end event within the backlog;
-- of one that goes on, every event from then on.
abbrev pub Served :
    (Run → Result Batch) → Option Event → Run → ℕ → ℕ → List String → Subscription → Type 0
Served f none r name last_id lines s =
    (s.done ≡ false) × Follows name last_id s.backlog (play f s.run (map emits lines))
Served f (some t) r name last_id lines s = (s.done ≡ true) × IsIn t s.backlog × (s.run ≡ r)

-- For a reader that is not ahead of a valid run and at most 2000 events behind it: a subscription is
-- refused exactly at 16 subscribers. Of a run that goes on, once at most 256 lines are emitted and
-- nothing else happens, the reader has in its backlog and then its queue exactly the events
-- last_id + 1 to the newest, in order, and is still subscribed. Of a run that has ended, it finds the
-- end event in its backlog and is told that the run is done, and the run stays as it was, without a
-- subscription.
pub subscribe-Served :
    (f : Run → Result Batch) (r : Run) (name last_id : ℕ) (lines : List String)
    → IsValid r
    → last_id ≤ r.sequence
    → r.sequence ≤ last_id + max_lines
    → length lines ≤ queue_size
    → ((max_subscribers ≤ active_subscribers r)
        × ((s : Subscription) → subscribe r name last_id ≢ ok s))
      ⊎ ((active_subscribers r < max_subscribers)
          × ((s : Subscription) × (subscribe r name last_id ≡ ok s)
              × Served f r.terminal r name last_id lines s))
unfolding subscribe with_terminal replay
subscribe-Served f r name last_id lines v h k few =
    elim (Bool-cases (leb max_subscribers (active_subscribers r))) [
      | inl full ↦ inl (ground arith, λ s. rw full (λ e. cc))
      | inr room ↦ inr (ground arith, rw room (_, refl, served r.terminal refl))
    ]
  where
    served :
        (o : Option Event)
        → r.terminal ≡ o
        → Served f o r name last_id lines (record {
          run = if is_some o then r else record r {
            subscribers = record { name = name; queue = []; subscribed = true } ∷ r.subscribers;
          };
          backlog = with_terminal o (replay r last_id);
          done = is_some o;
        })
    served none live = (
      refl,
      emits-Follows f name last_id (replay r last_id) lines
          (record r {
            subscribers = record { name = name; queue = []; subscribed = true } ∷ r.subscribers;
          })
          [] r.subscribers live refl
          (subst (λ es. Numbered last_id es r.sequence) (sym (append-nil (replay r last_id)))
            (replay-Numbered r v last_id h k))
          (omega arith),
    )
    served (some t) ended = (refl, with_terminal-IsIn t (replay r last_id), refl)
