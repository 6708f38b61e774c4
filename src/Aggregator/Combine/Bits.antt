-- ===== src/Aggregator/Combine/Bits.antt =====
-- The control bits and the front payload: `aggregateField` writes bytes of the field, or of the private
-- data.
use vermont.Base.{
  ℕ, zero, suc, ◌+◌, ◌*◌, ◌/◌, ◌%◌, ◌^◌, ◌==◌, ◌≤◌, ◌<◌, ◌≡◌, ◌⊎◌, inl, inr, refl, sym, subst, ap,
  ok, ◌∙◌, List, [], ◌∷◌, length, false, not, Bool-cases, arith,
}
use Prim.Native.Nat.{bit_or, bit_or-bitwise, digits, max}
use native.Mathlib.Nat.{pow-suc}
use vermont.Aggregator.Combine.{
  control_bits, front_payload, apply_operation, update_bits, update_payload,
}
use vermont.Aggregator.Field.{HashField}
use vermont.Aggregator.Number.Memory.{
  IsBytes, read_number-within, read_u8-lt, write_bytes-within, read_at-within, read_at-same,
}
use vermont.Aggregator.Number.{read_at}
use vermont.Parser.Bytes.{read_u8, read_u8_within}
use vermont.Aggregator.Combine.Merge.{IsSized, IsPlaced, IsPrivate, Applied}

or_digits-lt : (n k a b : ℕ) → a < 2 ^ k → b < 2 ^ k → digits (λ d. d) max n a b < 2 ^ k
or_digits-lt zero k a b h j = j
or_digits-lt (suc n) k zero b h j = j
or_digits-lt (suc n) zero (suc a) b h j = absurd (omega arith)
or_digits-lt (suc n) (suc k) (suc a) b h j =
    let p : 2 ^ suc k ≡ 2 ^ k * 2 = pow-suc 2 k in
    let rest = or_digits-lt n k (suc a / 2) (b / 2) (omega arith) (omega arith) in
    let last : max (suc a % 2) (b % 2) < 2 = omega arith in omega arith

-- Two bytes give a byte.
bit_or-lt : (a b : ℕ) → a < 256 → b < 256 → bit_or a b < 256
bit_or-lt a b h j = subst (λ v. v < 256) (sym (bit_or-bitwise a b)) (or_digits-lt a 8 a b h j)

sized : (len n : ℕ) → len ≡ n → not (len == n) ≡ false
sized len n h = ground arith

read_one :
    (buffer : List ℕ) (p len b : ℕ)
    → len ≡ 1
    → read_u8 buffer p ≡ ok b
    → read_at buffer p len ≡ ok (b ∷ [])
unfolding read_at
read_one buffer p len b one e = rw (one, e) refl

read_two :
    (buffer : List ℕ) (p len b0 b1 : ℕ)
    → len ≡ 2
    → read_u8 buffer p ≡ ok b0
    → read_u8 buffer (p + 1) ≡ ok b1
    → read_at buffer p len ≡ ok (b0 ∷ b1 ∷ [])
unfolding read_at
read_two buffer p len b0 b1 two e f = rw (two, e, f) refl

pub control_bits-Applied :
    (limit size : ℕ) (fi : HashField) (base flow : List ℕ)
    → IsPlaced limit size fi
    → IsSized control_bits fi.info.type.len
    → limit ≤ length base
    → limit ≤ length flow
    → IsBytes base
    → IsBytes flow
    → Applied limit control_bits fi base flow (apply_operation control_bits fi fi base flow)
unfolding update_bits
control_bits-Applied limit size fi base flow placed (inl one) hb hf bb bf =
    let p : ℕ = fi.info.offset in
    let (b, eb) = read_u8_within base p (omega (arith, placed.inside)) in
    let (d, ed) = read_u8_within flow p (omega (arith, placed.inside)) in
    let (base', done, same, there) =
      write_bytes-within base p (bit_or b d ∷ []) (omega (arith, placed.inside))
        (bit_or-lt b d (read_u8-lt base p b bb eb) (read_u8-lt flow p d bf ed), tt) in
    (
      false,
      base',
      rw (one, eb, ed, done) refl,
      same.0,
      same.1 bb,
      λ q l out. same.2 q (subst (λ k. (q < p) ⊎ (p + k ≤ q)) one out),
      inl (
        b,
        d,
        read_one base p fi.info.type.len b one eb,
        read_one flow p fi.info.type.len d one ed,
        ap (read_at base' p) one ∙ there,
      ),
    )
control_bits-Applied limit size fi base flow placed (inr two) hb hf bb bf =
    let p : ℕ = fi.info.offset in
    let (b0, eb0) = read_u8_within base p (omega (arith, placed.inside)) in
    let (b1, eb1) = read_u8_within base (p + 1) (omega (arith, placed.inside)) in
    let (d0, ed0) = read_u8_within flow p (omega (arith, placed.inside)) in
    let (d1, ed1) = read_u8_within flow (p + 1) (omega (arith, placed.inside)) in
    let (base', done, same, there) =
      write_bytes-within base p (bit_or b0 d0 ∷ bit_or b1 (d1 % 2) ∷ [])
        (omega (arith, placed.inside))
        (
          bit_or-lt b0 d0 (read_u8-lt base p b0 bb eb0) (read_u8-lt flow p d0 bf ed0),
          (bit_or-lt b1 (d1 % 2) (read_u8-lt base (p + 1) b1 bb eb1) (omega arith), tt),
        ) in
    (
      false,
      base',
      rw (two, eb0, eb1, ed0, ed1, done) refl,
      same.0,
      same.1 bb,
      λ q l out. same.2 q (subst (λ k. (q < p) ⊎ (p + k ≤ q)) two out),
      inr (
        b0,
        b1,
        d0,
        d1,
        read_two base p fi.info.type.len b0 b1 two eb0 eb1,
        read_two flow p fi.info.type.len d0 d1 two ed0 ed1,
        ap (read_at base' p) two ∙ there,
      ),
    )

pub front_payload-Applied :
    (limit size : ℕ) (fi : HashField) (base flow : List ℕ)
    → IsPlaced limit size fi
    → IsPrivate limit size fi front_payload
    → limit ≤ length base
    → size ≤ length base
    → size ≤ length flow
    → IsBytes base
    → IsBytes flow
    → Applied limit front_payload fi base flow (apply_operation front_payload fi fi base flow)
unfolding update_payload
front_payload-Applied limit size fi base flow placed (after, room) hl hb hf bb bf =
    let p : ℕ = fi.info.offset in
    let o : ℕ = fi.priv_data_offset + 4 in
    let (plen, ep, _) = read_number-within 4 o base (omega (arith, room)) bb in
    elim (Bool-cases (plen == 0)) [
      | inr used ↦ (false, base, rw (ep, used) refl, refl, bb, λ q l out. refl, inl refl)
      | inl free ↦
          let (bytes, e1, l1, m1) =
            read_at-within flow p fi.info.type.len (omega (arith, placed.inside, after, room)) bf in
          let (base1, d1, s1, t1) =
            write_bytes-within base p bytes (omega (arith, placed.inside)) m1 in
          let (dlen, e2, l2, m2) = read_at-within flow o 4 (omega (arith, room)) bf in
          let (base2, d2, s2, _) = write_bytes-within base1 o dlen (omega (arith, room, s1.0)) m2 in
          (
            false,
            base2,
            rw (ep, free, e1, d1, e2, d2) refl,
            s2.0 ∙ s1.0,
            s2.1 (s1.1 bb),
            λ q l out.
                s2.2 q (inl (omega (arith, after)))
                ∙ s1.2 q (subst (λ k. (q < p) ⊎ (p + k ≤ q)) (sym l1) out),
            inr (
                read_at-same base1 base2 p fi.info.type.len
                  (λ q a k. s2.2 q (inl (omega (arith, after, placed.inside))))
                ∙ ap (read_at base1 p) (sym l1)
                ∙ t1
                ∙ sym e1),
          )
    ]
