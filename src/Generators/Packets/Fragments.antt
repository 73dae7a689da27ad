-- ===== src/Generators/Packets/Fragments.antt =====
-- The fragments overlap, and all but the last say that more follow.
use srx.Prelude.{ℕ, zero, suc, ◌+◌, ◌*◌, ◌≤◌, ◌<◌, ◌≡◌, ap, ◌∙◌, true, some, get_elem?, arith}
use srx.Telemetry.{Stamp}
use srx.Generators.Packets.{
  Packet, PacketGenerator, fragment, fragments_from, overlapping_fragments,
}

module _ (g : PacketGenerator) (sport : ℕ) (now : Stamp) (port : ℕ) where
  get_elem?-fragments_from :
      (count first rounds i : ℕ)
      → i < rounds
      → get_elem? (fragments_from g sport now port count first rounds) i
        ≡ some (fragment g sport now port count (first + i))
  unfolding fragments_from
  get_elem?-fragments_from count first zero i h = elim h [ ]
  get_elem?-fragments_from count first (suc rounds) zero h =
      ap (λ k. some (fragment g sport now port count k)) (omega arith)
  get_elem?-fragments_from count first (suc rounds) (suc i) h =
      get_elem?-fragments_from count (first + 1) rounds i (omega arith)
      ∙ ap (λ k. some (fragment g sport now port count k)) (omega arith)

  get_elem?-sent :
      (n i : ℕ)
      → i < n
      → get_elem? (overlapping_fragments g sport now port n true).0 i
        ≡ some (fragment g sport now port n i)
  unfolding overlapping_fragments
  get_elem?-sent n i h =
      get_elem?-fragments_from n 0 n i h
      ∙ ap (λ k. some (fragment g sport now port n k)) (omega arith)

  -- Of the fragments that are sent, at most 64, each but the last says that more follow, and the next
  -- one starts behind its start, inside its payload, and ends below the largest length of a datagram;
  -- offsets are in units of eight bytes, and a header of 20 bytes is in front of the payload.
  pub overlapping_fragments-overlap :
      (n i : ℕ)
      → n ≤ 64
      → suc i < n
      → (p : Packet) × (q : Packet) × (get_elem? (overlapping_fragments g sport now port n true).0 i
          ≡ some p)
        × (get_elem? (overlapping_fragments g sport now port n true).0 (suc i) ≡ some q)
        × (p.more_fragments ≡ true)
        × (p.frag < q.frag)
        × (8 * q.frag < 8 * p.frag + p.load)
        × (8 * q.frag + 20 + q.load < 65535)
  unfolding fragment
  overlapping_fragments-overlap n i few h = (
    fragment g sport now port n i,
    fragment g sport now port n (suc i),
    get_elem?-sent n i (omega arith),
    get_elem?-sent n (suc i) h,
    ground arith,
    omega arith,
    omega arith,
    omega arith,
  )
