-- ===== src/Telemetry/Matching.antt =====
-- Laws of the matching primitives.
use srx.Prelude.{◌≡◌, refl, ◌↔◌, true, false, Option, none, some, Eq, eq_string, ==_sym, arith}
use srx.Prelude.Int.{ℤ, ◌+ℤ◌, ◌-ℤ◌, ◌≤ℤ◌, eq_ℤ}
use srx.Telemetry.{
  FiveTuple, Stamp, ticks, inside, value_compatible, fields_compatible, five_tuple_matches,
  normalized, observation_matches, endpoints, within_window,
}

value_compatible_sym {ℓ} :
    {A : Type ℓ} ⦃e : Eq A⦄ (a b : Option A) → value_compatible a b ≡ value_compatible b a
unfolding value_compatible
value_compatible_sym none none = refl
value_compatible_sym none (some b) = refl
value_compatible_sym (some a) none = refl
value_compatible_sym (some a) (some b) = ==_sym a b

-- Matching of 5-tuples does not depend on the order of the two.
pub five_tuple_matches_sym : (a b : FiveTuple) → five_tuple_matches a b ≡ five_tuple_matches b a
unfolding five_tuple_matches fields_compatible
five_tuple_matches_sym a b = rw (
  value_compatible_sym (normalized a).src_ip (normalized b).src_ip,
  value_compatible_sym (normalized a).dst_ip (normalized b).dst_ip,
  value_compatible_sym (normalized a).protocol (normalized b).protocol,
  value_compatible_sym (normalized a).src_port (normalized b).src_port,
  value_compatible_sym (normalized a).dst_port (normalized b).dst_port,
)

-- What a match says of one component: a wildcard, or the same value.
abbrev pub Agree : {A : Type 0} → Option A → Option A → Type 0
Agree none b = Unit
Agree (some a) none = Unit
Agree (some a) (some b) = a ≡ b

Agree-iff : {A : Type 0} ⦃e : Eq A⦄ (a b : Option A) → (value_compatible a b ≡ true) ↔ Agree a b
unfolding value_compatible
Agree-iff none b = (λ _. tt, λ _. refl)
Agree-iff (some a) none = (λ _. tt, λ _. refl)
Agree-iff ⦃e⦄ (some a) (some b) = e.beq_iff a b

pub record Compatible (a b : FiveTuple) : Type 0 where
  pub src_ip : Agree a.src_ip b.src_ip
  pub dst_ip : Agree a.dst_ip b.dst_ip
  pub protocol : Agree (normalized a).protocol (normalized b).protocol
  pub src_port : Agree a.src_port b.src_port
  pub dst_port : Agree a.dst_port b.dst_port

-- Two 5-tuples match exactly if each of the five components is unknown in one of them or the same in
-- both, protocols compared in upper case.
pub five_tuple_matches_iff : (a b : FiveTuple) → (five_tuple_matches a b ≡ true) ↔ Compatible a b
unfolding five_tuple_matches fields_compatible normalized
five_tuple_matches_iff a b = (
  λ h. record {
    src_ip = (Agree-iff a.src_ip b.src_ip).0 (ground arith);
    dst_ip = (Agree-iff a.dst_ip b.dst_ip).0 (ground arith);
    protocol = (Agree-iff (normalized a).protocol (normalized b).protocol).0 (ground arith);
    src_port = (Agree-iff a.src_port b.src_port).0 (ground arith);
    dst_port = (Agree-iff a.dst_port b.dst_port).0 (ground arith);
  },
  λ c. rw (
    (Agree-iff a.src_ip b.src_ip).1 c.src_ip,
    (Agree-iff a.dst_ip b.dst_ip).1 c.dst_ip,
    (Agree-iff (normalized a).protocol (normalized b).protocol).1 c.protocol,
    (Agree-iff a.src_port b.src_port).1 c.src_port,
    (Agree-iff a.dst_port b.dst_port).1 c.dst_port,
  ),
)

-- An observation with no address matches no stimulus, not even one that is all wildcards.
pub observation_matches-anonymous :
    (stimulus observed : FiveTuple)
    → observed.src_ip ≡ none
    → observed.dst_ip ≡ none
    → observation_matches stimulus observed ≡ false
unfolding observation_matches endpoints
observation_matches-anonymous stimulus observed p q = rw (p, q)

-- A match of an observation is a match of the tuples.
pub observation_matches-five_tuple_matches :
    (stimulus observed : FiveTuple)
    → observation_matches stimulus observed ≡ true
    → five_tuple_matches stimulus observed ≡ true
unfolding observation_matches
observation_matches-five_tuple_matches stimulus observed h = ground arith

-- The window is the closed interval that the skew widens at both ends; no other timestamp is in it.
pub within_window_iff :
    (s e : Stamp) (window skew : ℤ)
    → (within_window s e window skew ≡ true) ↔ (
        (x : ℤ) × (y : ℤ) × (ticks s ≡ some x)
        × (ticks e ≡ some y)
        × (x -ℤ skew ≤ℤ y)
        × (y ≤ℤ x +ℤ window +ℤ skew))
unfolding within_window
within_window_iff s e window skew = go (ticks s) (ticks e)
  where
    go :
        (p q : Option ℤ)
        → (inside p q window skew ≡ true) ↔ (
            (x : ℤ) × (y : ℤ) × (p ≡ some x)
            × (q ≡ some y)
            × (x -ℤ skew ≤ℤ y)
            × (y ≤ℤ x +ℤ window +ℤ skew))
    go none q = ((λ h. cc), λ (x, y, a, b, l, u). cc)
    go (some x) none = ((λ h. cc), λ (y, z, a, b, l, u). cc)
    go (some x) (some y) = (
      (λ h. (x, y, refl, refl, ground arith, ground arith)),
      λ (x', y', a, b, l, u). ground arith,
    )
