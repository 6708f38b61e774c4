-- ===== src/Aggregator/Rule/Network.antt =====
-- `matchesIPv4Pattern` (src/modules/ipfix/aggregator/Rule.cpp) decides whether one network is part of
-- another.
use native.Mathlib.Nat.{
  pow-suc, pow-le-pow_right, div-div-eq-div-mul, add-div_right, add-mul-div_right, div-eq_of_lt,
  mul-div_cancel,
}
use vermont.Base.{
  ℕ, zero, suc, ◌+◌, ◌-◌, ◌*◌, ◌/◌, ◌^◌, ◌==◌, ◌&&◌, ◌≤◌, ◌<◌, ◌≡◌, ◌↔◌, refl, sym, ap, ◌∙◌, subst,
  ltb, not, Bool, true, List, ok, Bool-cases, inl, inr, arith,
}
use vermont.Aggregator.Rule.{
  ipv4_imask, ipv4_address, shift_right, same_network, matches_ipv4_pattern,
}

-- Addresses of one network are in one network of any larger mask.
wider : (k d a b : ℕ) → a / 2 ^ d ≡ b / 2 ^ d → a / 2 ^ (k + d) ≡ b / 2 ^ (k + d)
wider zero d a b h = subst (λ e. a / 2 ^ e ≡ b / 2 ^ e) (omega arith) h
wider (suc k) d a b h =
    let step : 2 ^ (suc k + d) ≡ 2 ^ (k + d) * 2 =
      ap (λ e. 2 ^ e) (let e : suc k + d ≡ suc (k + d) = omega arith in e) ∙ pow-suc 2 (k + d) in
    subst (λ e. a / e ≡ b / e) (sym step)
      (sym (div-div-eq-div-mul a (2 ^ (k + d)) 2)
        ∙ ap (λ v. v / 2) (wider k d a b h)
        ∙ div-div-eq-div-mul b (2 ^ (k + d)) 2)

pow-pos : (k : ℕ) → 0 < 2 ^ k
pow-pos zero = omega arith
pow-pos (suc k) = let p = pow-pos k in let s = pow-suc 2 k in omega (arith, p, s)

-- A network with more host bits has addresses in two of the smaller networks.
two_networks :
    (d m addr : ℕ)
    → m < d
    → (a : ℕ) × (b : ℕ) × (a / 2 ^ d ≡ addr / 2 ^ d)
      × (b / 2 ^ d ≡ addr / 2 ^ d)
      × (b / 2 ^ m ≡ a / 2 ^ m + 1)
two_networks d m addr h =
    let base : ℕ = addr / 2 ^ d * 2 ^ d in
    let smaller : 2 ^ m < 2 ^ d =
      let up = pow-le-pow_right {n = 2} (omega arith) {i = suc m} {j = d} (omega (arith, h)) in
      let p = pow-pos m in let s = pow-suc 2 m in omega (arith, up, p, s) in
    let far : (2 ^ m + addr / 2 ^ d * 2 ^ d) / 2 ^ d ≡ addr / 2 ^ d =
      add-mul-div_right (2 ^ m) (addr / 2 ^ d) (pow-pos d)
      ∙ ap (λ v. v + addr / 2 ^ d) (div-eq_of_lt smaller)
      ∙ omega arith in
    let swap : base + 2 ^ m ≡ 2 ^ m + base = omega arith in
    (
      base,
      base + 2 ^ m,
      mul-div_cancel (addr / 2 ^ d) (pow-pos d),
      ap (λ v. v / 2 ^ d) swap ∙ far,
      add-div_right base (pow-pos m),
    )

-- One network is part of another.
abbrev pub IsPartOf : ℕ → ℕ → ℕ → ℕ → Type 0
IsPartOf dmaski daddr pmaski paddr =
    (a : ℕ) → a / 2 ^ dmaski ≡ daddr / 2 ^ dmaski → a / 2 ^ pmaski ≡ paddr / 2 ^ pmaski

same_network-IsPartOf :
    (wide : ℕ → ℕ → ℕ) (d m daddr paddr : ℕ)
    → m < 32
    → (same_network wide d m daddr paddr ≡ true) ↔ IsPartOf d daddr m paddr
unfolding same_network shift_right
same_network-IsPartOf wide d m daddr paddr narrow = (inside, matched)
  where
    defined : ltb m 32 ≡ true
    defined = ground (arith, narrow)

    inside :
        (not (ltb m d) && (shift_right wide daddr m == shift_right wide paddr m)) ≡ true
        → IsPartOf d daddr m paddr
    inside h a e =
        let same : daddr / 2 ^ m ≡ paddr / 2 ^ m = ground (arith, rw defined at h) in
        let le : d ≤ m = ground (arith, h) in
        let up : (m - d) + d ≡ m = omega (arith, le) in
        subst (λ k. a / 2 ^ k ≡ daddr / 2 ^ k) up (wider (m - d) d a daddr e) ∙ same

    matched :
        IsPartOf d daddr m paddr
        → (not (ltb m d) && (shift_right wide daddr m == shift_right wide paddr m)) ≡ true
    matched h =
        let same = h daddr refl in
        elim (Bool-cases (ltb m d)) [
          | inr f ↦ rw (f, defined) (ground (arith, same))
          | inl f ↦
              let (a, b, ea, eb, next) = two_networks d m daddr (ground (arith, f)) in
              let twice : a / 2 ^ m + 1 ≡ a / 2 ^ m = sym next ∙ h b eb ∙ sym (h a ea) in
              absurd (omega (arith, twice))
        ]

-- Where the mask and the address of a field and of a pattern can be read, and the pattern's mask leaves
-- at least one network bit, matchesIPv4Pattern returns whether every address of the field's network is
-- one of the pattern's network.
pub matches_ipv4_pattern-IsPartOf :
    (wide : ℕ → ℕ → ℕ) (dlen : ℕ) (buf : List ℕ) (p plen : ℕ) (pattern : List ℕ) (q : ℕ)
    (dmaski pmaski daddr paddr : ℕ)
    → ipv4_imask dlen buf p ≡ ok dmaski
    → ipv4_imask plen pattern q ≡ ok pmaski
    → ipv4_address dlen buf p ≡ ok daddr
    → ipv4_address plen pattern q ≡ ok paddr
    → pmaski < 32
    → (r : Bool) × (matches_ipv4_pattern wide dlen buf p plen pattern q ≡ ok r)
      × ((r ≡ true) ↔ IsPartOf dmaski daddr pmaski paddr)
unfolding matches_ipv4_pattern
matches_ipv4_pattern-IsPartOf wide dlen buf p plen pattern q d m daddr paddr ed em ea ep narrow = (
  same_network wide d m daddr paddr,
  rw (ed, em, ea, ep) refl,
  same_network-IsPartOf wide d m daddr paddr narrow,
)
