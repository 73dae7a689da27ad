-- ===== src/Address.antt =====
-- `ipaddress.ip_address` of Python's standard library, as the test whether it accepts a text:
-- the IPv4 form of four decimal octets, then the IPv6 form with `::`, an embedded IPv4 tail and a
-- scope id.
use srx.Prelude.{
  ℕ, suc, ◌+◌, ◌-◌, ◌*◌, ◌≡◌, refl, Bool, true, false, not, ◌&&◌, ◌||◌, String, List, [], ◌∷◌,
  length, leb, nat_eq, all, drop, take, if◌then◌else◌,
}
use srx.Prelude.Text.{codes, split, is_digit}

has : ℕ → List ℕ → Bool
has c [] = false
has c (x ∷ xs) = nat_eq x c || has c xs

abbrev is_empty : List ℕ → Bool
is_empty [] = true
is_empty (x ∷ xs) = false

decimal_value : ℕ → List ℕ → ℕ
decimal_value acc [] = acc
decimal_value acc (c ∷ cs) = decimal_value (acc * 10 + (c - 48)) cs

leading_zero : List ℕ → Bool
leading_zero (c ∷ d ∷ cs) = nat_eq c 48
leading_zero _ = false

is_octet : List ℕ → Bool
unfolding decimal_value leading_zero
is_octet cs =
    not (is_empty cs)
    && all is_digit cs
    && leb (length cs) 3
    && not (leading_zero cs)
    && leb (decimal_value 0 cs) 255

unfoldable pub is_ipv4 : List ℕ → Bool
unfolding has is_octet
is_ipv4 cs =
    let parts = split b'.' cs in not (has b'/' cs) && nat_eq (length parts) 4 && all is_octet parts

is_hex : ℕ → Bool
is_hex c = is_digit c || (leb 97 c && leb c 102) || (leb 65 c && leb c 70)

is_hextet : List ℕ → Bool
unfolding is_hex
is_hextet cs = not (is_empty cs) && leb (length cs) 4 && all is_hex cs

last_part : List (List ℕ) → List ℕ
last_part [] = []
last_part (p ∷ []) = p
last_part (p ∷ q ∷ r) = last_part (q ∷ r)

-- An IPv4 tail stands for two hextets.
expand_tail : List (List ℕ) → List (List ℕ)
expand_tail [] = []
expand_tail (p ∷ []) = (48 ∷ []) ∷ (48 ∷ []) ∷ []
expand_tail (p ∷ q ∷ r) = p ∷ expand_tail (q ∷ r)

-- The places of the empty parts among those that are neither first nor last.
gaps_from : ℕ → List (List ℕ) → List ℕ
gaps_from i [] = []
gaps_from i (p ∷ []) = []
gaps_from i (p ∷ q ∷ r) =
    let rest = gaps_from (suc i) (q ∷ r) in if is_empty p then i ∷ rest else rest

inner_gaps : List (List ℕ) → List ℕ
unfolding gaps_from
inner_gaps [] = []
inner_gaps (p ∷ r) = gaps_from 1 r

first_part : List (List ℕ) → List ℕ
first_part [] = []
first_part (p ∷ r) = p

-- With one `::` at place `skip`: an empty first or last part belongs to the `::`.
skipped_form : ℕ → List (List ℕ) → Bool
unfolding is_hextet first_part last_part
skipped_form skip parts =
    let first_empty = is_empty (first_part parts) in
    let last_empty = is_empty (last_part parts) in
    let hi = if first_empty then skip - 1 else skip in
    let lo_all = length parts - skip - 1 in
    let lo = if last_empty then lo_all - 1 else lo_all in
    (not first_empty || nat_eq hi 0)
    && (not last_empty || nat_eq lo 0)
    && leb (hi + lo) 7
    && all is_hextet (take hi parts)
    && all is_hextet (drop (length parts - lo) parts)

colon_form : List (List ℕ) → Bool
unfolding inner_gaps skipped_form
colon_form parts = elim (inner_gaps parts) [
  | [] ↦ nat_eq (length parts) 8 && all is_hextet parts
  | i ∷ [] ↦ leb (length parts) 9 && skipped_form i parts
  | i ∷ j ∷ r ↦ false
]

colon_address : List ℕ → Bool
unfolding is_ipv4 colon_form expand_tail
colon_address cs =
    let parts = split b':' cs in
    if leb 3 (length parts)
    then (if has b'.' (last_part parts)
        then is_ipv4 (last_part parts) && colon_form (expand_tail parts)
        else colon_form parts)
    else false

-- A scope id stands behind one `%` and is not empty.
scoped_address : List (List ℕ) → Bool
unfolding colon_address
scoped_address (a ∷ []) = colon_address a
scoped_address (a ∷ scope ∷ []) = not (is_empty scope) && colon_address a
scoped_address _ = false

unfoldable pub is_ip_address : String → Bool
unfolding is_ipv4 scoped_address
is_ip_address s =
    let cs = codes s in is_ipv4 cs || (not (has b'/' cs) && scoped_address (split b'%' cs))

accepted_forms :
    all is_ip_address (
      "203.0.113.10" ∷ "::" ∷ "::1" ∷ "2001:db8::7" ∷ "fe80::1%eth0" ∷ "::ffff:192.0.2.1"
      ∷ "1:2:3:4:5:6:7:8" ∷ "1:2:3:4:5:6:7::" ∷ [])
    ≡ true
unfolding is_ip_address all split
accepted_forms = refl

refused_forms :
    all
      (λ s. not (is_ip_address s))
      ("" ∷ "192.0.2" ∷ "192.0.2.256" ∷ "192.0.02.1" ∷ "1::2::3" ∷ ":1:2:3:4:5:6:7" ∷ "12345::"
        ∷ "::1%" ∷ "host" ∷ "10.0.0.0/8" ∷ "1:2:3:4:5:6:7:8:9" ∷ [])
    ≡ true
unfolding is_ip_address all split
refused_forms = refl
