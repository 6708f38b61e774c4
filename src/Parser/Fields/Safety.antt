-- ===== src/Parser/Fields/Safety.antt =====
-- The field specifiers are read within the set, and each takes at least four bytes.
use vermont.Base.{
  ℕ, subst, ◌>>=◌, [], ◌∷◌, zero, suc, ◌+◌, ◌*◌, ◌%◌, ◌^◌, ◌≤◌, ◌≡◌, refl, inl, inr, Bool,
  Bool-cases, List, length, Outcome, ok, out_of_bounds, overflow, out_of_fuel, Option, none, some,
  ltb, leb, ◌==◌, ◌&&◌, arith,
}
use vermont.Record.{FieldInfo}
use vermont.Parser.Bytes.{read_u16_within, read_u32_within}
use vermont.Parser.Fields.{read_enterprise, read_field, read_fields, cons_field}

-- What a read field is: it lies between `p` and the end of the set. `W` says whether the code may
-- write beyond a buffer on the way.
abbrev pub IsRead : Type 0 → ℕ → ℕ → ℕ → Outcome (Option (FieldInfo × ℕ × ℕ)) → Type 0
IsRead W end_of_set p record_length (ok none) = Unit
IsRead W end_of_set p record_length (ok (some (f, p', total))) =
    (p + 4 ≤ p')
    × (p' ≤ end_of_set)
    × (f.offset ≡ record_length)
    × (total ≡ (record_length + f.type.len) % 2 ^ 16)
    × (f.is_variable_length ≡ (f.type.len == 65535))
IsRead W end_of_set p record_length out_of_bounds = ⊥
IsRead W end_of_set p record_length overflow = W
IsRead W end_of_set p record_length out_of_fuel = ⊥

module _ (message : List ℕ) (ipfix : Bool) (end_of_set : ℕ)
    (within : end_of_set ≤ length message) where
  read_enterprise-IsRead :
      (p record_length id len : ℕ)
      → p + 4 ≤ end_of_set
      → IsRead ⊥ end_of_set p record_length
          (read_enterprise message ipfix end_of_set p record_length id len)
  unfolding read_enterprise
  read_enterprise-IsRead p record_length id len h = elim (Bool-cases (leb 0x8000 id && ipfix)) [
    | inl e ↦ elim (Bool-cases (ltb end_of_set (p + 8))) [
      | inl q ↦ rw (e, q) tt
      | inr q ↦
          let (v, r) = read_u32_within message (p + 4) (ground arith) in
          rw (e, q, r) (omega arith, ground arith, refl, refl, refl)
    ]
    | inr e ↦ rw e (omega arith, h, refl, refl, refl)
  ]

  -- Reading a field never leaves the message.
  pub read_field-IsRead :
      (p record_length : ℕ)
      → IsRead ⊥ end_of_set p record_length (read_field message ipfix end_of_set p record_length)
  unfolding read_field
  read_field-IsRead p record_length = elim (Bool-cases (ltb end_of_set (p + 4))) [
    | inl e ↦ rw e tt
    | inr e ↦
        let (a, q) = read_u16_within message p (ground arith) in
        let (b, r) = read_u16_within message (p + 2) (ground arith) in
        rw (e, q, r) (read_enterprise-IsRead p record_length a b (ground arith))
  ]

-- The fields lie one behind the other in a data record: each offset is the length of the fields
-- before it, and the last sum is the record's length. All of them are kept in sixteen bits.
abbrev pub Layout : ℕ → List FieldInfo → ℕ → Type 0
Layout start [] total = total ≡ start
Layout start (f ∷ fs) total =
    (f.offset ≡ start)
    × (f.is_variable_length ≡ (f.type.len == 65535))
    × Layout ((start + f.type.len) % 2 ^ 16) fs total

abbrev pub AreRead : Type 0 → ℕ → ℕ → ℕ → ℕ → Outcome (Option (List FieldInfo × ℕ × ℕ)) → Type 0
AreRead W end_of_set n p record_length (ok none) = Unit
AreRead W end_of_set n p record_length (ok (some (fs, q, total))) =
    (length fs ≡ n) × (p + 4 * n ≤ q) × (q ≤ end_of_set) × Layout record_length fs total
AreRead W end_of_set n p record_length out_of_bounds = ⊥
AreRead W end_of_set n p record_length overflow = W
AreRead W end_of_set n p record_length out_of_fuel = ⊥

-- One step of the loop, the rest being known.
pub read_cons :
    (W : Type 0) (end_of_set n p record_length : ℕ) (f : FieldInfo) (p' total : ℕ)
    (rest : Outcome (Option (List FieldInfo × ℕ × ℕ)))
    → IsRead W end_of_set p record_length (ok (some (f, p', total)))
    → AreRead W end_of_set n p' total rest
    → AreRead W end_of_set (suc n) p record_length (rest >>= cons_field f)
read_cons W end_of_set n p record_length f p' total (ok none) h k = tt
read_cons W end_of_set n p record_length f p' total (ok (some (fs, q, sum))) h k =
    (omega arith, omega arith, k.2, (h.2, h.4, subst (λ t. Layout t fs sum) h.3 k.3))
read_cons W end_of_set n p record_length f p' total out_of_bounds h k = k
read_cons W end_of_set n p record_length f p' total overflow h k = k
read_cons W end_of_set n p record_length f p' total out_of_fuel h k = k

module _ (message : List ℕ) (ipfix : Bool) (end_of_set : ℕ)
    (within : end_of_set ≤ length message) where
  -- Reading the fields of a template never leaves the message, and gives each its place.
  pub read_fields-AreRead :
      (n p record_length : ℕ)
      → p ≤ end_of_set
      → AreRead ⊥ end_of_set n p record_length
          (read_fields message ipfix end_of_set n p record_length)
  unfolding read_fields
  read_fields-AreRead zero p record_length h = (refl, omega arith, h, refl)
  read_fields-AreRead (suc n) p record_length h =
      go (read_field message ipfix end_of_set p record_length)
        (read_field-IsRead message ipfix end_of_set within p record_length)
        (λ p' total. read_fields-AreRead n p' total)
    where
      go :
          (field : Outcome (Option (FieldInfo × ℕ × ℕ)))
          → IsRead ⊥ end_of_set p record_length field
          → ((p' total : ℕ)
              → p' ≤ end_of_set
              → AreRead ⊥ end_of_set n p' total (read_fields message ipfix end_of_set n p' total))
          → AreRead ⊥ end_of_set (suc n) p record_length (
              field >>= λ r. elim r [
                | none ↦ ok none
                | some (f, p', total) ↦
                    read_fields message ipfix end_of_set n p' total >>= cons_field f
              ])
      go (ok none) k rec = tt
      go (ok (some (f, p', total))) k rec =
          read_cons ⊥ end_of_set n p record_length f p' total _ k (rec p' total k.1)
      go out_of_bounds k rec = k
      go overflow k rec = k
      go out_of_fuel k rec = k
