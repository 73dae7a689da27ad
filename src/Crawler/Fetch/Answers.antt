-- ===== src/Crawler/Fetch/Answers.antt =====
-- What stands behind the body of a crawl: the loop over it comes to an end within its fuel, and a crawl
-- that counts as a success has had a whole, plain and unambiguous response.
use srx.Prelude.{
  ℕ, zero, suc, ◌+◌, ◌-◌, ◌≤◌, ◌<◌, ◌≡◌, refl, sym, ◌∙◌, inl, inr, Bool, true, false, not, ◌&&◌,
  Option, some, is_some, String, List, [], ◌∷◌, ◌++◌, leb, ltb, nat_eq, length, length-append,
  length-take, take, min, ok, Bool-cases, Result-cases, arith,
}
use srx.Crawler.Fetch.{
  mismatch, bad_status, Read, bytes, fails, incomplete, Response, Exchange, unreachable, answers,
  Crawl, initial, is_identity, expected_length, is_framed, Ending, finished, over_limit, timed_out,
  broken, equals, read_body, failed, is_success, completed, after_body, receive, with_headers,
  respond, fetch,
}

-- `read1(n)` returns at most n bytes.
abbrev pub IsAtMost : ℕ → Read → Type 0
IsAtMost n (bytes b) = length b ≤ n
IsAtMost n (fails e) = Unit
IsAtMost n (incomplete partial e) = Unit

abbrev pub IsReader : Exchange → Type 0
IsReader (unreachable e) = Unit
IsReader (answers r) = (i n : ℕ) → IsAtMost n (r.reads i n)

length-take_le : (n : ℕ) (cs : List ℕ) → length (take n cs) ≤ n
length-take_le n cs = omega (arith, length-take n cs)

module _ (r : Response) (expected : Option ℕ) (limit : ℕ)
    (at_most : (i n : ℕ) → IsAtMost n (r.reads i n)) where
  -- The loop ends, with at most as many bytes as the limit.
  abbrev Ends : Option (Ending × List ℕ) → Type 0
  Ends o = (e : Ending) × (body : List ℕ) × (o ≡ some (e, body)) × (length body ≤ limit)

  read_body-Ends :
      (fuel i : ℕ) (body : List ℕ)
      → length body ≤ limit
      → limit < fuel + length body
      → Ends (read_body r expected limit fuel i body)
  unfolding read_body
  read_body-Ends zero i body h l = absurd (omega arith)
  read_body-Ends (suc fuel) i body h l = elim (Bool-cases (r.expired i)) [
    | inl e ↦ rw (e, read_body) (timed_out, body, refl, h)
    | inr e ↦
        rw (e, read_body)
          (elim (Bool-cases (nat_eq (length body) limit)) [
            | inl q ↦ rw q (_, body, refl, h)
            | inr q ↦ rw q (
                next (r.reads i (min 16384 (limit - length body)))
                  (at_most i (min 16384 (limit - length body)))
                  (λ b bs k.
                    read_body-Ends fuel (suc i) (body ++ b ∷ bs)
                      (omega (arith, length-append body (b ∷ bs)))
                      (omega (arith, length-append body (b ∷ bs)))))
          ])
  ]
    where
      next :
          (got : Read)
          → IsAtMost (min 16384 (limit - length body)) got
          → ((b : ℕ) (bs : List ℕ)
              → length (b ∷ bs) ≤ limit - length body
              → Ends (read_body r expected limit fuel (suc i) (body ++ b ∷ bs)))
          → Ends (elim got [
            | bytes [] ↦ some (finished, body)
            | bytes (b ∷ bs) ↦ read_body r expected limit fuel (suc i) (body ++ b ∷ bs)
            | fails e ↦ some (broken e, body)
            | incomplete partial e ↦ some (broken e, body ++ take (limit - length body) partial)
          ])
      next (bytes []) k more = (finished, body, refl, h)
      next (bytes (b ∷ bs)) k more = more b bs (omega arith)
      next (fails e) k more = (broken e, body, refl, h)
      next (incomplete partial e) k more = (
        broken e,
        body ++ take (limit - length body) partial,
        refl,
        omega (
          arith,
          length-append body (take (limit - length body) partial),
          length-take_le (limit - length body) partial,
        ),
      )

-- The response that stands behind a success.
abbrev pub Behind : Exchange → Crawl → Type 0
Behind (unreachable e) c = ⊥
Behind (answers r) c =
    (is_success r.status ≡ true)
    × (is_identity r.content_encoding ≡ true)
    × ((expected : Option ℕ) × (expected_length r.content_length ≡ ok expected)
        × (is_framed r.transfer_encoding expected ≡ true)
        × ((is_some expected && not (equals expected (length c.body))) ≡ false))

-- A crawl fails exactly if it names a problem; a success has its whole body.
pub record IsHonest (x : Exchange) (limit : ℕ) (c : Crawl) : Type 0 where
  pub bounded : length c.body ≤ limit
  pub consistent : is_some c.error ≡ not c.succeeded
  pub whole : c.succeeded ≡ true → c.response_complete ≡ true
  pub untruncated : c.succeeded ≡ true → c.truncated ≡ false
  pub behind : c.succeeded ≡ true → Behind x c

pub failure :
    (x : Exchange) (limit : ℕ) (c : Crawl)
    → length c.body ≤ limit
    → is_some c.error ≡ true
    → c.succeeded ≡ false
    → IsHonest x limit c
failure x limit c b e s = record {
  bounded = b;
  consistent = rw (e, s) refl;
  whole = λ h. cc (s, h);
  untruncated = λ h. cc (s, h);
  behind = λ h. absurd (false_true (rw s at h));
}
  where
    false_true : ◌≡◌ {A = Bool} false true → ⊥
    false_true q = absurd (ground arith)

module _ (r : Response) (limit : ℕ) (at_most : (i n : ℕ) → IsAtMost n (r.reads i n)) where
  -- What the steps start from.
  abbrev IsFresh : Crawl → Type 0
  IsFresh c =
      (length c.body ≤ limit)
      × (c.succeeded ≡ false)
      × (c.truncated ≡ false)
      × (is_some c.error ≡ false)

  abbrev Answered : Option Crawl → Type 0
  Answered o = (c : Crawl) × (o ≡ some c) × IsHonest (answers r) limit c

  module _ (expected : Option ℕ) (plain : is_identity r.content_encoding ≡ true)
      (known : expected_length r.content_length ≡ ok expected)
      (framed : is_framed r.transfer_encoding expected ≡ true) where
    completed-IsHonest :
        (c : Crawl) → IsFresh c → IsHonest (answers r) limit (completed r expected c)
    unfolding completed failed
    completed-IsHonest c f =
        elim (Bool-cases (is_some expected && not (equals expected (length c.body)))) [
          | inl e ↦
              rw e (failure (answers r) limit (record c { error = some mismatch }) f.0 refl f.1)
          | inr e ↦ rw e (elim (Bool-cases (is_success r.status)) [
            | inl g ↦ rw g (record {
              bounded = f.0;
              consistent = rw f.3 refl;
              whole = λ h. refl;
              untruncated = λ h. f.2;
              behind = λ h. (g, plain, (expected, known, framed, e));
            })
            | inr g ↦ rw g (
                failure (answers r) limit
                  (record c { response_complete = true; error = some (bad_status r.status) }) f.0
                  refl f.1)
          ])
        ]

    after_body-IsHonest :
        (c : Crawl) (e : Ending) (body : List ℕ)
        → IsFresh c
        → length body ≤ limit
        → IsHonest (answers r) limit (after_body r expected c (e, body))
    unfolding after_body failed
    after_body-IsHonest c finished body f b =
        completed-IsHonest (record c { body = body }) (b, f.1, f.2, f.3)
    after_body-IsHonest c over_limit body f b = failure (answers r) limit _ b refl f.1
    after_body-IsHonest c timed_out body f b = failure (answers r) limit _ b refl f.1
    after_body-IsHonest c (broken e) body f b = failure (answers r) limit _ b refl f.1

    receive-Answered : (c : Crawl) → IsFresh c → Answered (receive r expected limit c)
    unfolding receive
    receive-Answered c f =
        let (e, body, ends, b) =
          read_body-Ends r expected limit at_most (suc limit) 0 [] (omega arith) (omega arith) in
        rw (framed, receive, ends)
          (after_body r expected c (e, body), refl, after_body-IsHonest c e body f b)

  respond-Answered : (c : Crawl) → IsFresh c → Answered (respond r limit c)
  unfolding respond failed with_headers
  respond-Answered c f = elim (Bool-cases (leb 300 r.status && ltb r.status 400)) [
    | inl e ↦ rw e (_, refl, failure (answers r) limit _ f.0 refl f.1)
    | inr e ↦ rw e (elim (Bool-cases (is_identity r.content_encoding)) [
      | inr q ↦ rw q (_, refl, failure (answers r) limit _ f.0 refl f.1)
      | inl q ↦ rw q (elim (Result-cases (expected_length r.content_length)) [
        | inr (x, k) ↦ rw (k, respond) (_, refl, failure (answers r) limit _ f.0 refl f.1)
        | inl (expected, k) ↦
            rw (k, respond)
              (elim (Bool-cases (is_framed r.transfer_encoding expected)) [
                | inl g ↦ receive-Answered expected q k g (with_headers r c) f
                | inr g ↦
                    unfold receive in
                    rw (g, receive) (_, refl, failure (answers r) limit _ f.0 refl f.1)
              ])
      ])
    ])
  ]

pub fetch-Answered :
    (x : Exchange) (limit : ℕ) (url : String)
    → IsReader x
    → (c : Crawl) × (fetch x limit (initial url) ≡ some c) × IsHonest x limit c
unfolding fetch initial failed
fetch-Answered (unreachable e) limit url a =
    (_, refl, failure (unreachable e) limit _ (omega arith) refl refl)
fetch-Answered (answers r) limit url a =
    respond-Answered r limit a _ (omega arith, refl, refl, refl)

-- What the extraction keeps.
pub same_outcome :
    (x : Exchange) (limit : ℕ) (c d : Crawl)
    → d.body ≡ c.body
    → d.error ≡ c.error
    → d.succeeded ≡ c.succeeded
    → d.response_complete ≡ c.response_complete
    → d.truncated ≡ c.truncated
    → IsHonest x limit c
    → IsHonest x limit d
same_outcome (unreachable y) limit c d b e s w t h = record {
  bounded = rw b h.bounded;
  consistent = rw (e, s) h.consistent;
  whole = λ k. w ∙ h.whole (sym s ∙ k);
  untruncated = λ k. t ∙ h.untruncated (sym s ∙ k);
  behind = λ k. h.behind (sym s ∙ k);
}
same_outcome (answers r) limit c d b e s w t h = record {
  bounded = rw b h.bounded;
  consistent = rw (e, s) h.consistent;
  whole = λ k. w ∙ h.whole (sym s ∙ k);
  untruncated = λ k. t ∙ h.untruncated (sym s ∙ k);
  behind = λ k. rw b (h.behind (sym s ∙ k));
}
