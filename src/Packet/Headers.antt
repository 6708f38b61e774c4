-- ===== src/Packet/Headers.antt =====
-- The loop over the IPv6 extension headers ends, whatever the packet holds.
use vermont.Base.{
  ℕ, suc, zero, ◌+◌, ◌*◌, ◌/◌, ◌≤◌, ◌<◌, ◌≡◌, ◌⊎◌, inl, inr, refl, List, [], ◌∷◌, length, Outcome,
  ok, out_of_bounds, overflow, out_of_fuel, ◌>>=◌, Bool-cases, ◌==◌, arith,
}
use vermont.Packet.{
  HeaderRound, next_header, last_header, header_round, extension_headers, is_option_header,
}
use vermont.Parser.Bytes.{read_u8, read_u16}

-- A byte that was read lies within the buffer.
pub read_u8-cases :
    (net : List ℕ) (p : ℕ)
    → (read_u8 net p ≡ out_of_bounds) ⊎ ((b : ℕ) × (read_u8 net p ≡ ok b) × (p < length net))
unfolding read_u8
read_u8-cases [] p = inl refl
read_u8-cases (x ∷ xs) zero = inr (x, refl, omega arith)
read_u8-cases (x ∷ xs) (suc p) = elim (read_u8-cases xs p) [
  | inl e ↦ inl e
  | inr (b, e, h) ↦ inr (b, e, omega arith)
]

pub read_u16-cases :
    (net : List ℕ) (p : ℕ)
    → (read_u16 net p ≡ out_of_bounds) ⊎ ((v : ℕ) × (read_u16 net p ≡ ok v) × (p + 1 < length net))
unfolding read_u16
read_u16-cases net p = elim (read_u8-cases net p) [
  | inl e ↦ inl (rw e refl)
  | inr (hi, e, h) ↦ elim (read_u8-cases net (p + 1)) [
    | inl f ↦ inl (rw (e, f) refl)
    | inr (lo, f, k) ↦ inr (hi * 256 + lo, rw (e, f) refl, k)
  ]
]

-- A round goes on at a later offset, from one within the buffer, or it leaves the loop, at its offset
-- or, for a later fragment, at none.
abbrev IsRound : List ℕ → ℕ → Outcome HeaderRound → Type 0
IsRound net offset (ok (next_header p o)) = (offset < length net) × (offset < o)
IsRound net offset (ok (last_header p o)) = (o ≡ offset) ⊎ ((p ≡ 44) × (o ≡ 0))
IsRound net offset out_of_bounds = Unit
IsRound net offset overflow = ⊥
IsRound net offset out_of_fuel = ⊥

header_round-IsRound :
    (net : List ℕ) (protocol offset : ℕ) → IsRound net offset (header_round net protocol offset)
unfolding header_round
header_round-IsRound net protocol offset = elim (Bool-cases (is_option_header protocol)) [
  | inl e ↦ rw e (counted (λ len. len * 8 + 8) (λ len. omega arith))
  | inr e ↦ elim (Bool-cases (protocol == 44)) [
    | inl f ↦ elim (read_u16-cases net (offset + 2)) [
      | inl g ↦ rw (e, f, g) tt
      | inr (fragments, g, h) ↦ elim (Bool-cases (fragments / 8 == 0)) [
        | inl k ↦ elim (read_u8-cases net offset) [
          | inl l ↦ rw (e, f, g, k, l) tt
          | inr (b, l, m) ↦ rw (e, f, g, k, l) (m, omega arith)
        ]
        | inr k ↦ rw (e, f, g, k) (inr (ground arith, refl))
      ]
    ]
    | inr f ↦ elim (Bool-cases (protocol == 51)) [
      | inl g ↦ rw (e, f, g) (counted (λ len. (len + 2) * 4) (λ len. omega arith))
      | inr g ↦ rw (e, f, g) (inl refl)
    ]
  ]
]
  where
    counted :
        (size : ℕ → ℕ)
        → ((len : ℕ) → 0 < size len)
        → IsRound net offset (do
          protocol' ← read_u8 net offset
          len ← read_u8 net (offset + 1)
          ok (next_header protocol' (offset + size len)))
    counted size h = elim (read_u8-cases net offset) [
      | inl e ↦ rw e tt
      | inr (b, e, m) ↦ elim (read_u8-cases net (offset + 1)) [
        | inl f ↦ rw (e, f) tt
        | inr (len, f, k) ↦ rw (e, f) (m, omega (arith, h len))
      ]
    ]

-- The loop ends, unless it reads beyond the buffer, at an offset no smaller than the first, or at
-- none for a later fragment.
abbrev pub IsTransport : ℕ → Outcome (ℕ × ℕ) → Type 0
IsTransport offset (ok (p, o)) = (offset ≤ o) ⊎ ((p ≡ 44) × (o ≡ 0))
IsTransport offset out_of_bounds = Unit
IsTransport offset overflow = ⊥
IsTransport offset out_of_fuel = ⊥

later : (a b : ℕ) (r : Outcome (ℕ × ℕ)) → a ≤ b → IsTransport b r → IsTransport a r
later a b (ok (p, o)) h (inl k) = inl (omega arith)
later a b (ok (p, o)) h (inr k) = inr k
later a b out_of_bounds h k = tt
later a b overflow h k = k
later a b out_of_fuel h k = k

pub extension_headers-IsTransport :
    (net : List ℕ) (fuel protocol offset : ℕ)
    → 0 < fuel
    → length net < fuel + offset
    → IsTransport offset (extension_headers net fuel protocol offset)
unfolding extension_headers
extension_headers-IsTransport net zero protocol offset pos h = absurd (omega arith)
extension_headers-IsTransport net (suc fuel) protocol offset pos h =
    go (extension_headers-IsTransport net fuel) (header_round net protocol offset)
      (header_round-IsRound net protocol offset)
  where
    go :
        ((p o : ℕ)
          → 0 < fuel
          → length net < fuel + o
          → IsTransport o (extension_headers net fuel p o))
        → (r : Outcome HeaderRound) → IsRound net offset r
        → IsTransport offset (do
          round ← r
          elim round [
            | next_header protocol' offset' ↦ extension_headers net fuel protocol' offset'
            | last_header protocol' offset' ↦ ok (protocol', offset')
          ])
    go ih (ok (next_header p o)) k =
        later offset o (extension_headers net fuel p o) (omega arith)
          (ih p o (omega arith) (omega arith))
    go ih (ok (last_header p o)) (inl k) = inl (omega arith)
    go ih (ok (last_header p o)) (inr k) = inr k
    go ih out_of_bounds k = tt
    go ih overflow k = k
    go ih out_of_fuel k = k
