-- ===== src/Parser/OptionsSet/Scopes.antt =====
-- The scope fields are read within the set; what can go wrong is a write beyond `fieldInfo`.
use vermont.Base.{
  ℕ, zero, suc, ◌+◌, ◌≤◌, refl, inl, inr, Bool, Bool-cases, List, length, Outcome, ok,
  out_of_bounds, overflow, out_of_fuel, ◌>>=◌, Option, none, some, ltb, leb, ◌&&◌, arith,
}
use vermont.Record.{FieldInfo}
use vermont.Parser.Bytes.{read_u16_within, read_u32_within}
use vermont.Parser.Fields.{cons_field}
use vermont.Parser.Fields.Safety.{IsRead, AreRead, read_cons}
use vermont.Parser.OptionsSet.{scope_enterprise, read_scope, read_scopes}

module _ (junk : ℕ → ℕ) (message : List ℕ) (ipfix : Bool) (end_of_set field_count : ℕ)
    (within : end_of_set ≤ length message) where
  scope_enterprise-IsRead :
      (i p record_length id len : ℕ)
      → p + 4 ≤ end_of_set
      → IsRead Unit end_of_set p record_length
          (scope_enterprise junk message ipfix end_of_set field_count i p record_length id len)
  unfolding scope_enterprise
  scope_enterprise-IsRead i p record_length id len h = elim (Bool-cases (leb 0x8000 id && ipfix)) [
    | inl e ↦ elim (Bool-cases (ltb end_of_set (p + 8))) [
      | inl q ↦ rw (e, q) tt
      | inr q ↦
          let (v, r) = read_u32_within message (p + 4) (ground arith) in
          rw (e, q, r) (omega arith, ground arith, refl, refl, refl)
    ]
    | inr e ↦ elim (Bool-cases (ltb i field_count)) [
      | inl q ↦ rw (e, q) (omega arith, h, refl, refl, refl)
      | inr q ↦ rw (e, q) tt
    ]
  ]

  read_scope-IsRead :
      (i p record_length : ℕ)
      → IsRead Unit end_of_set p record_length
          (read_scope junk message ipfix end_of_set field_count i p record_length)
  unfolding read_scope
  read_scope-IsRead i p record_length = elim (Bool-cases (ltb end_of_set (p + 4))) [
    | inl e ↦ rw e tt
    | inr e ↦
        let (a, q) = read_u16_within message p (ground arith) in
        let (b, r) = read_u16_within message (p + 2) (ground arith) in
        rw (e, q, r) (scope_enterprise-IsRead i p record_length a b (ground arith))
  ]

  pub read_scopes-AreRead :
      (n i p record_length : ℕ)
      → p ≤ end_of_set
      → AreRead Unit end_of_set n p record_length
          (read_scopes junk message ipfix end_of_set field_count n i p record_length)
  unfolding read_scopes
  read_scopes-AreRead zero i p record_length h = (refl, omega arith, h, refl)
  read_scopes-AreRead (suc n) i p record_length h =
      go (read_scope junk message ipfix end_of_set field_count i p record_length)
        (read_scope-IsRead i p record_length) (λ p' total. read_scopes-AreRead n (i + 1) p' total)
    where
      go :
          (scope : Outcome (Option (FieldInfo × ℕ × ℕ)))
          → IsRead Unit end_of_set p record_length scope
          → ((p' total : ℕ)
              → p' ≤ end_of_set
              → AreRead Unit end_of_set n p' total
                  (read_scopes junk message ipfix end_of_set field_count n (i + 1) p' total))
          → AreRead Unit end_of_set (suc n) p record_length (
              scope >>= λ r. elim r [
                | none ↦ ok none
                | some (f, p', total) ↦
                    read_scopes junk message ipfix end_of_set field_count n (i + 1) p' total
                    >>= cons_field f
              ])
      go (ok none) k rec = tt
      go (ok (some (f, p', total))) k rec =
          read_cons Unit end_of_set n p record_length f p' total _ k (rec p' total k.1)
      go out_of_bounds k rec = k
      go overflow k rec = k
      go out_of_fuel k rec = k
