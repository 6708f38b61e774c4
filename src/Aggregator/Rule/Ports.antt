-- ===== src/Aggregator/Rule/Ports.antt =====
-- The ranges of ports that `matchesPortPattern` (src/modules/ipfix/aggregator/Rule.cpp) compares.
use vermont.Base.{
  ℕ, zero, suc, ◌+◌, ◌*◌, ◌/◌, ◌%◌, ◌==◌, ◌&&◌, ◌≤◌, ◌<◌, ◌≡◌, ◌⊎◌, refl, ap, ◌∙◌, subst, ltb, leb,
  true, false, List, ok, Bool-cases, bind-Returned, inl, inr, arith,
}
use vermont.Aggregator.Rule.{in_ranges, all_in_ranges, none_around, matches_port_pattern}
use vermont.Parser.Bytes.{read_u16}

-- The range at an offset
abbrev pub IsRange : List ℕ → ℕ → ℕ → ℕ → Type 0
IsRange buf p lo hi = (read_u16 buf p ≡ ok lo) × (read_u16 buf (p + 2) ≡ ok hi)

-- A port lies in one of the `n` ranges.
abbrev pub IsPort : ℕ → List ℕ → ℕ → ℕ → Type 0
IsPort n buf p x =
    (i : ℕ) × (lo : ℕ) × (hi : ℕ) × (i < n) × IsRange buf (p + i * 4) lo hi × (lo ≤ x) × (x ≤ hi)

IsPort-later : (n : ℕ) (buf : List ℕ) (p x : ℕ) → IsPort n buf (p + 4) x → IsPort (suc n) buf p x
IsPort-later n buf p x (i, lo, hi, l, r, a, b) =
    let e : p + 4 + i * 4 ≡ p + suc i * 4 = omega arith in
    (suc i, lo, hi, omega (arith, l), subst (λ o. IsRange buf o lo hi) e r, a, b)

in_ranges-IsPort :
    (n : ℕ) (pattern : List ℕ) (q lo hi x : ℕ)
    → in_ranges n pattern q lo hi ≡ ok true
    → lo ≤ x
    → x ≤ hi
    → IsPort n pattern q x
unfolding in_ranges
in_ranges-IsPort zero pattern q lo hi x h l r = absurd (ground (arith, h))
in_ranges-IsPort (suc n) pattern q lo hi x h l r =
    let (s, es, h1) = bind-Returned (read_u16 pattern q) _ h in
    let (e, ee, h2) = bind-Returned (read_u16 pattern (q + 2)) _ h1 in
    elim (Bool-cases (leb s lo && leb hi e)) [
      | inl t ↦
          let first : q ≡ q + 0 * 4 = omega arith in
          (
            0,
            s,
            e,
            omega arith,
            subst (λ o. IsRange pattern o s e) first (es, ee),
            ground (arith, t, l),
            ground (arith, t, r),
          )
      | inr t ↦
          IsPort-later n pattern q x (in_ranges-IsPort n pattern (q + 4) lo hi x (rw t at h2) l r)
    ]

-- Where each range of a field is matched, every port in one of them is in a range of the pattern.
pub all_in_ranges-IsPort :
    (n : ℕ) (buf : List ℕ) (p m : ℕ) (pattern : List ℕ) (q x : ℕ)
    → all_in_ranges n buf p m pattern q ≡ ok true
    → IsPort n buf p x
    → IsPort m pattern q x
unfolding all_in_ranges
all_in_ranges-IsPort zero buf p m pattern q x h (i, lo, hi, l, r, a, b) = absurd (omega (arith, l))
all_in_ranges-IsPort (suc n) buf p m pattern q x h (zero, lo, hi, l, (el, eh), a, b) =
    let first : p + 0 * 4 ≡ p = omega arith in
    let (found, ef, h3) = bind-Returned (in_ranges m pattern q lo hi) _ (
      rw
        (
          subst (λ o. read_u16 buf o ≡ ok lo) first el,
          subst (λ o. read_u16 buf (o + 2) ≡ ok hi) first eh,
        )
        at h) in
    elim (Bool-cases found) [
      | inr f ↦ absurd (ground (arith, f, h3))
      | inl f ↦ in_ranges-IsPort m pattern q lo hi x (ef ∙ ap ok f) a b
    ]
all_in_ranges-IsPort (suc n) buf p m pattern q x h (suc i, lo, hi, l, r, a, b) =
    let (s, es, h1) = bind-Returned (read_u16 buf p) _ h in
    let (e, ee, h2) = bind-Returned (read_u16 buf (p + 2)) _ h1 in
    let (found, ef, h3) = bind-Returned (in_ranges m pattern q s e) _ h2 in
    let there : p + suc i * 4 ≡ p + 4 + i * 4 = omega arith in
    elim (Bool-cases found) [
      | inr f ↦ absurd (ground (arith, f, h3))
      | inl f ↦
          all_in_ranges-IsPort n buf (p + 4) m pattern q x (rw f at h3)
            (i, lo, hi, omega (arith, l), subst (λ o. IsRange buf o lo hi) there r, a, b)
    ]

-- A port of a field, which holds one port or ranges of 4 bytes
abbrev pub HasPort : ℕ → List ℕ → ℕ → ℕ → Type 0
HasPort len buf p x =
    ((len ≡ 2) × (read_u16 buf p ≡ ok x)) ⊎ ((len % 4 ≡ 0) × IsPort (len / 4) buf p x)

-- Where a field of one port or of ranges matches a pattern of ranges, every port of the field is in one
-- of the pattern's ranges.
pub matches_port_pattern-HasPort :
    (dlen : ℕ) (buf : List ℕ) (p plen : ℕ) (pattern : List ℕ) (q x : ℕ)
    → plen % 4 ≡ 0
    → matches_port_pattern dlen buf p plen pattern q ≡ ok true
    → HasPort dlen buf p x
    → IsPort (plen / 4) pattern q x
unfolding matches_port_pattern
matches_port_pattern-HasPort dlen buf p plen pattern q x four h (inl (two, e)) =
    let one : (dlen == 2) ≡ true = ground (arith, two) in
    let ranges : (plen == 2) ≡ false = ground (arith, four) in
    let whole : (plen % 4 == 0) ≡ true = ground (arith, four) in
    in_ranges-IsPort (plen / 4) pattern q x x x (rw (one, ranges, whole, e) at h) (omega arith)
      (omega arith)
matches_port_pattern-HasPort dlen buf p plen pattern q x four h (inr (fours, r)) =
    let many : (dlen == 2) ≡ false = ground (arith, fours) in
    let ranges : (plen == 2) ≡ false = ground (arith, four) in
    let whole : (plen % 4 == 0) ≡ true = ground (arith, four) in
    let wholes : (dlen % 4 == 0) ≡ true = ground (arith, fours) in
    all_in_ranges-IsPort (dlen / 4) buf p (plen / 4) pattern q x
      (rw (many, ranges, wholes, whole) at h) r

none_around_outside :
    (n : ℕ) (buf : List ℕ) (p port : ℕ)
    → ((i : ℕ)
        → i < n
        → (lo : ℕ) × (hi : ℕ) × IsRange buf (p + i * 4) lo hi × ((port ≤ lo) ⊎ (hi ≤ port)))
    → none_around n buf p port ≡ ok true
unfolding none_around
none_around_outside zero buf p port h = refl
none_around_outside (suc n) buf p port h =
    let (lo, hi, r, out) = h 0 (omega arith) in
    let first : p + 0 * 4 ≡ p = omega arith in
    let (el, eh) = subst (λ o. IsRange buf o lo hi) first r in
    let apart : (ltb lo port && ltb port hi) ≡ false = outside lo hi out in
    rw (el, eh, apart)
      (none_around_outside n buf (p + 4) port (λ i l.
        let (s, e, q, o) = h (suc i) (omega (arith, l)) in
        let there : p + suc i * 4 ≡ p + 4 + i * 4 = omega arith in
        (s, e, subst (λ k. IsRange buf k s e) there q, o)))
  where
    outside : (lo hi : ℕ) → (port ≤ lo) ⊎ (hi ≤ port) → (ltb lo port && ltb port hi) ≡ false
    outside lo hi (inl a) = ground (arith, a)
    outside lo hi (inr a) = ground (arith, a)

-- A field of ranges, none of which holds the one port of the pattern strictly inside, matches the
-- pattern, also where no range holds the port at all.
pub matches_port_pattern_outside :
    (dlen : ℕ) (buf : List ℕ) (p : ℕ) (pattern : List ℕ) (q port : ℕ)
    → dlen % 4 ≡ 0
    → read_u16 pattern q ≡ ok port
    → ((i : ℕ)
        → i < dlen / 4
        → (lo : ℕ) × (hi : ℕ) × IsRange buf (p + i * 4) lo hi × ((port ≤ lo) ⊎ (hi ≤ port)))
    → matches_port_pattern dlen buf p 2 pattern q ≡ ok true
unfolding matches_port_pattern
matches_port_pattern_outside dlen buf p pattern q port fours e h =
    let many : (dlen == 2) ≡ false = ground (arith, fours) in
    let wholes : (dlen % 4 == 0) ≡ true = ground (arith, fours) in
    elim (Bool-cases (dlen == 0)) [
      | inl z ↦ rw (many, wholes, z) refl
      | inr z ↦ rw (many, wholes, z, e) (none_around_outside (dlen / 4) buf p port h)
    ]
