-- ===== src/Generators/Client/Http/Receiving.antt =====
-- What the loop receives, against a description of the whole exchange, and what follows for the payload.
use srx.Prelude.{
  nat_eq, nat_eq_iff, ◌⊎◌, ◌↔◌, sym, ok_inj, ◌||◌, ℕ, ◌+◌, ◌≡◌, ◌≤◌, refl, ap, ◌∙◌, inl, inr, Bool,
  true, false, Option, none, some, String, List, [], ◌∷◌, ◌++◌, length, length-append, ltb,
  Bool-cases, Result, ok, err, runtime_error, os_error, ◌>>=◌, ◌>>◌, guard, arith, if◌then◌else◌,
}
use mathlib.Core.List.{append_assoc, append-nil}
use srx.Prelude.Text.{codes, occurs}
use srx.Generators.Client.Http.{
  Part, chunk, reset, timed_out, deadline, broken, receive, response_limit, is_conclusive, is_block,
  status_of, words, first_line, connected, raw_http,
}

-- All bytes up to the end of the exchange.
unfoldable pub delivered : List Part → List ℕ
delivered (chunk (b ∷ bytes) ∷ parts) = (b ∷ bytes) ++ delivered parts
delivered parts = []

-- How the exchange ends: by a reset or otherwise, or with a failure, which is none.
unfoldable pub ending : List Part → Option Bool
ending (chunk (b ∷ bytes) ∷ parts) = ending parts
ending (reset ∷ parts) = some true
ending (broken ∷ parts) = none
ending parts = some false

unfoldable pub closed : Option Bool → List ℕ → Result (List ℕ × Bool)
closed none response = err os_error
closed (some was_reset) response = ok (response, was_reset)

-- The result of an exchange that brings these bytes behind those received before.
abbrev pub Received : ℕ → List ℕ → List Part → Result (List ℕ × Bool) → Type 0
Received limit response parts result = result ≡ (
    if ltb limit (length response + length (delivered parts))
    then err runtime_error
    else closed (ending parts) (response ++ delivered parts))

no_more :
    (limit : ℕ) (response : List ℕ) (r : Result (List ℕ × Bool))
    (f : List ℕ → Result (List ℕ × Bool))
    → length response ≤ limit
    → r ≡ f response
    → r ≡ (if ltb limit (length response + 0) then err runtime_error else f (response ++ []))
no_more limit response r f h e = rw (fits, append-nil response) e
  where
    fits : ltb limit (length response + 0) ≡ false
    fits = ground arith

receive-Received :
    (limit : ℕ) (response : List ℕ) (parts : List Part)
    → length response ≤ limit
    → Received limit response parts (receive limit response parts)
unfolding receive delivered ending closed
receive-Received limit response [] h = no_more limit response _ (λ r. ok (r, false)) h refl
receive-Received limit response (chunk [] ∷ parts) h =
    no_more limit response _ (λ r. ok (r, false)) h refl
receive-Received limit response (reset ∷ parts) h =
    no_more limit response _ (λ r. ok (r, true)) h refl
receive-Received limit response (timed_out ∷ parts) h =
    no_more limit response _ (λ r. ok (r, false)) h refl
receive-Received limit response (deadline ∷ parts) h =
    no_more limit response _ (λ r. ok (r, false)) h refl
receive-Received limit response (broken ∷ parts) h =
    no_more limit response _ (λ r. err os_error) h refl
receive-Received limit response (chunk (b ∷ bytes) ∷ parts) h =
    elim (Bool-cases (ltb limit (length response + length (b ∷ bytes)))) [
      | inl over ↦ rw (over, still_over over) refl
      | inr fits ↦ rw fits (
          receive-Received limit (response ++ b ∷ bytes) parts
            (ground (arith, length-append response (b ∷ bytes)))
          ∙ same)
    ]
  where
    whole :
        length (response ++ b ∷ bytes) + length (delivered parts)
        ≡ length response + length ((b ∷ bytes) ++ delivered parts)
    whole =
        omega
          (arith, length-append response (b ∷ bytes), length-append (b ∷ bytes) (delivered parts))

    still_over :
        ltb limit (length response + length (b ∷ bytes)) ≡ true
        → ltb limit (length response + length ((b ∷ bytes) ++ delivered parts)) ≡ true
    still_over e = ground (arith, length-append (b ∷ bytes) (delivered parts))

    same :
        (if ltb limit (length (response ++ b ∷ bytes) + length (delivered parts))
          then err runtime_error
          else closed (ending parts) ((response ++ b ∷ bytes) ++ delivered parts))
        ≡ (if ltb limit (length response + length ((b ∷ bytes) ++ delivered parts))
            then err runtime_error
            else closed (ending parts) (response ++ ((b ∷ bytes) ++ delivered parts)))
    same = rw (whole, append_assoc response (b ∷ bytes) (delivered parts)) refl

module _ (src_ip : String) (src_port : ℕ) (expected : Option String) (response : List ℕ) where
  -- The check of a response and its end.
  abbrev pub judged : Option Bool → Result (String × ℕ)
  judged none = err os_error
  judged (some was_reset) =
      if is_conclusive expected response was_reset then ok (src_ip, src_port) else err runtime_error

  judge :
      (over : Bool) (end : Option Bool)
      → ((if over then err runtime_error else closed end response) >>= λ r.
          (guard (is_conclusive expected r.0 r.1) runtime_error >> ok (src_ip, src_port)))
        ≡ (if over then err runtime_error else judged end)
  unfolding closed
  judge true end = refl
  judge false none = refl
  judge false (some was_reset) = elim (Bool-cases (is_conclusive expected response was_reset)) [
    | inl e ↦ rw e refl
    | inr e ↦ rw e refl
  ]

-- The result of a connection, by what it delivers and how it ends.
raw_http_lem :
    (src_ip : String) (src_port : ℕ) (parts : List Part) (expected : Option String)
    → raw_http (connected src_ip src_port parts) expected ≡ (
        if ltb response_limit (length (delivered parts))
        then err runtime_error
        else judged src_ip src_port expected (delivered parts) (ending parts))
unfolding raw_http
raw_http_lem src_ip src_port parts expected =
    ap
      (λ (m : Result (List ℕ × Bool)).
        m >>= λ r. (guard (is_conclusive expected r.0 r.1) runtime_error >> ok (src_ip, src_port)))
      (receive-Received response_limit [] parts (omega arith)
        ∙ ap
            (λ n.
              if ltb response_limit n
              then err runtime_error
              else closed (ending parts) (delivered parts))
            {x = 0 + length (delivered parts)} {y = length (delivered parts)} (omega arith))
    ∙ judge src_ip src_port expected (delivered parts)
        (ltb response_limit (length (delivered parts))) (ending parts)

-- What has to be seen of a response before a test payload counts as delivered or blocked: nothing if
-- there is no payload; otherwise the payload in the response, a reset by the peer, or a first line
-- whose second word is the number 403 or 451.
abbrev pub Conclusive : Option String → List ℕ → Bool → Type 0
Conclusive none response was_reset = Unit
Conclusive (some expected) response was_reset =
    (occurs (codes expected) response ≡ true)
    ⊎ ((was_reset ≡ true)
        ⊎ ((status_of (words [] (first_line response)) ≡ some 403)
            ⊎ (status_of (words [] (first_line response)) ≡ some 451)))

is_block_iff : (o : Option ℕ) → (is_block o ≡ true) ↔ ((o ≡ some 403) ⊎ (o ≡ some 451))
unfolding is_block
is_block_iff none = (λ h. absurd (cc h), λ h. elim h [ inl e ↦ cc e | inr e ↦ cc e ])
is_block_iff (some n) = (forward, backward)
  where
    forward :
        (nat_eq n 403 || nat_eq n 451) ≡ true
        → (◌≡◌ {A = Option ℕ} (some n) (some 403)) ⊎ (◌≡◌ {A = Option ℕ} (some n) (some 451))
    forward h = elim (Bool-cases (nat_eq n 403)) [
      | inl e ↦ inl (ap some ((nat_eq_iff n 403).0 e))
      | inr e ↦ inr (ap some ((nat_eq_iff n 451).0 (ground arith)))
    ]

    backward :
        (◌≡◌ {A = Option ℕ} (some n) (some 403)) ⊎ (◌≡◌ {A = Option ℕ} (some n) (some 451))
        → (nat_eq n 403 || nat_eq n 451) ≡ true
    backward (inl e) = ground arith
    backward (inr e) = ground arith

is_conclusive_iff :
    (expected : Option String) (response : List ℕ) (was_reset : Bool)
    → (is_conclusive expected response was_reset ≡ true) ↔ Conclusive expected response was_reset
unfolding is_conclusive
is_conclusive_iff none response was_reset = (λ h. tt, λ h. refl)
is_conclusive_iff (some expected) response was_reset = (forward, backward)
  where
    forward :
        is_conclusive (some expected) response was_reset ≡ true
        → Conclusive (some expected) response was_reset
    forward h = elim (Bool-cases (occurs (codes expected) response)) [
      | inl seen ↦ inl seen
      | inr unseen ↦ elim (Bool-cases was_reset) [
        | inl r ↦ inr (inl r)
        | inr r ↦ inr (inr ((is_block_iff _).0 (ground arith)))
      ]
    ]

    backward :
        Conclusive (some expected) response was_reset
        → is_conclusive (some expected) response was_reset ≡ true
    backward (inl seen) = ground arith
    backward (inr (inl r)) = ground arith
    backward (inr (inr b)) =
        let q = (is_block_iff (status_of (words [] (first_line response)))).1 b in ground arith

-- An exchange that succeeds: it brings at most 1 MiB, ends otherwise than by a failure of the socket, and
-- is conclusive.
pub record Succeeds (expected : Option String) (parts : List Part) : Type 0 where
  pub bounded : length (delivered parts) ≤ response_limit
  pub was_reset : Bool
  pub ends : ending parts ≡ some was_reset
  pub conclusive : Conclusive expected (delivered parts) was_reset

module _ (src_ip : String) (src_port : ℕ) (parts : List Part) (expected : Option String) where
  -- The result for a number of bytes and an end of the exchange.
  abbrev outcome : Bool → Option Bool → Result (String × ℕ)
  outcome over o =
      if over then err runtime_error else judged src_ip src_port expected (delivered parts) o

  outcome-Succeeds :
      (over : Bool) (o : Option Bool) (m : String × ℕ)
      → ltb response_limit (length (delivered parts)) ≡ over
      → ending parts ≡ o
      → outcome over o ≡ ok m
      → Succeeds expected parts × (m ≡ (src_ip, src_port))
  outcome-Succeeds true o m l e h = cc
  outcome-Succeeds false none m l e h = cc
  outcome-Succeeds false (some was_reset) m l e h =
      elim (Bool-cases (is_conclusive expected (delivered parts) was_reset)) [
        | inl c ↦ (
          record {
            bounded = ground arith;
            was_reset = was_reset;
            ends = e;
            conclusive = (is_conclusive_iff expected (delivered parts) was_reset).0 c;
          },
          sym (ok_inj (rw c at h)),
        )
        | inr c ↦ absurd (cc (rw c at h))
      ]

  -- A connection succeeds, and then with its own address, exactly if it brings at most 1 MiB before it
  -- ends, ends other than by a failure of the socket, and either no payload is expected, or the
  -- payload is in the response, the peer reset the connection, or the second word of the first line is
  -- the number 403 or 451.
  pub raw_http_iff :
      (m : String × ℕ)
      → (raw_http (connected src_ip src_port parts) expected ≡ ok m)
        ↔ (Succeeds expected parts × (m ≡ (src_ip, src_port)))
  raw_http_iff m = (
    λ h.
        outcome-Succeeds (ltb response_limit (length (delivered parts))) (ending parts) m refl refl
          (sym (raw_http_lem src_ip src_port parts expected) ∙ h),
    λ h. raw_http_lem src_ip src_port parts expected ∙ backward h.0 h.1,
  )
    where
      backward :
          Succeeds expected parts
          → m ≡ (src_ip, src_port)
          → outcome (ltb response_limit (length (delivered parts))) (ending parts) ≡ ok m
      backward s e =
          let fits : ltb response_limit (length (delivered parts)) ≡ false =
            ground (arith, s.bounded) in
          let c = (is_conclusive_iff expected (delivered parts) s.was_reset).1 s.conclusive in
          rw (fits, s.ends, c, e) refl
