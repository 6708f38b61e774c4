-- ===== src/Parser/DataSet/Variable.antt =====
-- The fields of a data record of variable length.
use vermont.Base.{
  ℕ, ◌+◌, ◌≤◌, ◌≡◌, refl, inl, inr, Bool-cases, List, [], ◌∷◌, length, All, Option, none, some,
  Outcome, ok, out_of_bounds, overflow, out_of_fuel, ◌>>=◌, ◌==◌, ltb, if◌then◌else◌, arith,
}
use vermont.Record.{SourceId, FieldInfo}
use vermont.Parser.Bytes.{read_u8_within, read_u16_within}
use vermont.Parser.Fields.Lengths.{min_length, IsInside}
use vermont.Parser.DataSet.{field_length, placed, cons_placed, place_fields}

-- A field's place: behind the bytes before it, and behind its own length bytes.
abbrev pub IsPlaced : FieldInfo → ℕ → Outcome (Option (ℕ × ℕ)) → Type 0
IsPlaced f record_length (ok none) = Unit
IsPlaced f record_length (ok (some (len, offset))) =
    (record_length ≤ offset)
    × (record_length + (if f.is_variable_length then 1 else f.type.len) ≤ offset + len)
IsPlaced f record_length out_of_bounds = ⊥
IsPlaced f record_length overflow = ⊥
IsPlaced f record_length out_of_fuel = ⊥

-- All fields in their places, each within the record's length.
abbrev pub ArePlaced : List FieldInfo → ℕ → Outcome (Option (List FieldInfo × ℕ)) → Type 0
ArePlaced fields record_length (ok none) = Unit
ArePlaced fields record_length (ok (some (fs, total))) =
    (record_length + min_length fields ≤ total)
    × (length fs ≡ length fields)
    × All (IsInside total) fs
ArePlaced fields record_length out_of_bounds = ⊥
ArePlaced fields record_length overflow = ⊥
ArePlaced fields record_length out_of_fuel = ⊥

module _ (source : SourceId) (message : List ℕ) (end_of_set : ℕ)
    (within : end_of_set ≤ length message) where
  field_length-IsPlaced :
      (f : FieldInfo) (p record_length : ℕ)
      → IsPlaced f record_length (field_length source message end_of_set f p record_length)
  unfolding field_length
  field_length-IsPlaced f p record_length = elim (Bool-cases f.is_variable_length) [
    | inr e ↦ rw e (omega arith, omega arith)
    | inl e ↦ elim (Bool-cases (ltb end_of_set (p + record_length + 1))) [
      | inl q ↦ rw (e, q) tt
      | inr q ↦
          let (short, r) = read_u8_within message (p + record_length) (ground arith) in
          elim (Bool-cases (short == 255)) [
            | inr t ↦ rw (e, q, r, t) (omega arith, omega arith)
            | inl t ↦ elim (Bool-cases (ltb end_of_set (p + (record_length + 1) + 2))) [
              | inl u ↦ rw (e, q, r, t, u) tt
              | inr u ↦
                  let (long, w) =
                    read_u16_within message (p + (record_length + 1)) (ground arith) in
                  rw (e, q, r, t, u, w) (omega arith, omega arith)
            ]
          ]
    ]
  ]

  place_cons :
      (f : FieldInfo) (fields : List FieldInfo) (record_length len offset : ℕ)
      (rest : Outcome (Option (List FieldInfo × ℕ)))
      → IsPlaced f record_length (ok (some (len, offset)))
      → ArePlaced fields (offset + len) rest
      → ArePlaced (f ∷ fields) record_length (
          rest
          >>= cons_placed source message end_of_set (placed source message end_of_set f offset len))
  place_cons f fields record_length len offset (ok none) h k = tt
  place_cons f fields record_length len offset (ok (some (fs, total))) h k =
      (omega arith, omega arith, (omega arith, k.2))
  place_cons f fields record_length len offset out_of_bounds h k = k
  place_cons f fields record_length len offset overflow h k = k
  place_cons f fields record_length len offset out_of_fuel h k = k

  -- The lengths of a record's fields are read within the set, and every field lies within the record.
  pub place_fields-ArePlaced :
      (fields : List FieldInfo) (p record_length : ℕ)
      → ArePlaced fields record_length
          (place_fields source message end_of_set fields p record_length)
  unfolding place_fields
  place_fields-ArePlaced [] p record_length = (omega arith, refl, tt)
  place_fields-ArePlaced (f ∷ fields) p record_length =
      go (field_length source message end_of_set f p record_length)
        (field_length-IsPlaced f p record_length) (λ n. place_fields-ArePlaced fields p n)
    where
      go :
          (found : Outcome (Option (ℕ × ℕ)))
          → IsPlaced f record_length found
          → ((n : ℕ) → ArePlaced fields n (place_fields source message end_of_set fields p n))
          → ArePlaced (f ∷ fields) record_length (
              found >>= λ r. elim r [
                | none ↦ ok none
                | some (len, offset) ↦
                    place_fields source message end_of_set fields p (offset + len)
                    >>= cons_placed source message end_of_set
                        (placed source message end_of_set f offset len)
              ])
      go (ok none) k rec = tt
      go (ok (some (len, offset))) k rec =
          place_cons f fields record_length len offset _ k (rec (offset + len))
      go out_of_bounds k rec = k
      go overflow k rec = k
      go out_of_fuel k rec = k
