-- ===== src/Aggregator/Rule/Matched.antt =====
-- `Rule::dataRecordMatches` (src/modules/ipfix/aggregator/Rule.cpp) reads no more than the record and the
-- patterns of the rule.
use vermont.Base.{
  ℕ, ◌+◌, ◌==◌, ◌&&◌, ◌≤◌, ◌<◌, ◌≡◌, ◌↔◌, refl, Bool, true, false, List, [], ◌∷◌, length, Option,
  none, some, ok, Bool-cases, inl, inr, All, arith,
}
use vermont.Aggregator.Rule.{
  RuleField, get_field_info, check_mask, is_reverse_field, prefix_matches, pattern_matches,
  field_matches, data_record_matches,
}
use vermont.Parser.Bytes.{read_u8_within}
use vermont.Record.{IeInfo, FieldInfo}
use vermont.Aggregator.Rule.Reads.{Ends, if-Ends, bind-Ends, imask-Ends, pattern-Ends}

-- The field lies in the record, and has a byte there.
abbrev pub IsWithin : List ℕ → FieldInfo → Type 0
IsWithin buf fi = (fi.offset + fi.type.len ≤ length buf) × (fi.offset < length buf)

abbrev IsSomeWithin : List ℕ → Option FieldInfo → Type 0
IsSomeWithin buf none = Unit
IsSomeWithin buf (some fi) = IsWithin buf fi

get_field_info-within :
    (id enterprise : ℕ) (buf : List ℕ) (fis : List FieldInfo)
    → All (IsWithin buf) fis
    → IsSomeWithin buf (get_field_info id enterprise fis)
unfolding get_field_info
get_field_info-within id enterprise buf [] h = tt
get_field_info-within id enterprise buf (fi ∷ fis) h =
    let rest = get_field_info-within id enterprise buf fis h.1 in
    elim (Bool-cases ((fi.type.id == id) && (fi.type.enterprise == enterprise))) [
      | inl e ↦ rw e h.0
      | inr e ↦ rw e rest
    ]

mask-Ends :
    (found : Option FieldInfo) (buf : List ℕ) (plen : ℕ) (pattern : List ℕ)
    → IsSomeWithin buf found
    → plen ≤ length pattern
    → Ends (check_mask found buf plen pattern)
unfolding check_mask
mask-Ends none buf plen pattern h k = (true, refl)
mask-Ends (some fi) buf plen pattern h k =
    bind-Ends (imask-Ends plen pattern 0 (omega (arith, k)))
      (λ imask. bind-Ends (read_u8_within buf fi.offset (omega (arith, h.1))) (λ prefix. (_, refl)))

prefix-Ends :
    (fis : List FieldInfo) (buf : List ℕ) (type : IeInfo) (pattern : List ℕ)
    → All (IsWithin buf) fis
    → type.len ≤ length pattern
    → Ends (prefix_matches fis buf type pattern)
unfolding prefix_matches
prefix-Ends fis buf type pattern h k =
    if-Ends ((type.enterprise == 0) && (type.len == 5))
      (λ _.
        if-Ends (type.id == 8)
          (λ _.
            mask-Ends (get_field_info 9 0 fis) buf type.len pattern
              (get_field_info-within 9 0 buf fis h) k)
          (λ _.
            if-Ends (type.id == 12)
              (λ _.
                mask-Ends (get_field_info 13 0 fis) buf type.len pattern
                  (get_field_info-within 13 0 buf fis h) k)
              (λ _. (true, refl))))
      (λ _. (true, refl))

-- The pattern of a field of a rule is as long as its type says.
abbrev pub HasPattern : IeInfo → Option (List ℕ) → Type 0
HasPattern type none = Unit
HasPattern type (some pattern) = type.len ≤ length pattern

module _ (wide : ℕ → ℕ → ℕ) (known : ℕ → ℕ → Bool) (biflow : Bool) (fis : List FieldInfo)
    (buf : List ℕ) (inside : All (IsWithin buf) fis) where
  found-Ends :
      (type : IeInfo) (pattern : List ℕ) (found : Option FieldInfo)
      → IsSomeWithin buf found
      → type.len ≤ length pattern
      → Ends (pattern_matches wide fis buf type pattern found)
  unfolding pattern_matches
  found-Ends type pattern none h k = (false, refl)
  found-Ends type pattern (some fi) h k =
      bind-Ends (pattern-Ends wide fi.type buf fi.offset type pattern h.0 k) (λ matched.
        if-Ends matched (λ _. prefix-Ends fis buf type pattern inside k) (λ _. (false, refl)))

  field-Ends :
      (type : IeInfo) (pattern : Option (List ℕ)) (modifier : ℕ)
      → HasPattern type pattern
      → Ends (field_matches wide known biflow fis buf type pattern modifier)
  unfolding field_matches
  field-Ends type none modifier h = (_, refl)
  field-Ends type (some pattern) modifier h =
      if-Ends (is_reverse_field type) (λ _. (true, refl))
        (λ _.
          found-Ends type pattern (get_field_info type.id type.enterprise fis)
            (get_field_info-within type.id type.enterprise buf fis inside) h)

  -- The field of the rule is matched.
  abbrev pub IsMatched : RuleField → Type 0
  IsMatched f = field_matches wide known biflow fis buf f.type f.pattern f.modifier ≡ ok true

  -- For a record that holds the fields of its template, and a rule with whole patterns, dataRecordMatches
  -- ends without reading beyond either, and returns whether every field of the rule is matched.
  pub data_record_matches-IsMatched :
      (rule : List RuleField)
      → All (λ f. HasPattern f.type f.pattern) rule
      → (r : Bool) × (data_record_matches wide known biflow fis buf rule ≡ ok r)
        × ((r ≡ true) ↔ All IsMatched rule)
  unfolding data_record_matches
  data_record_matches-IsMatched [] h = (true, refl, ((λ _. tt), (λ _. refl)))
  data_record_matches-IsMatched (f ∷ fs) (h, hs) =
      let (r, e, (forth, back)) = data_record_matches-IsMatched fs hs in
      let (m, em) = field-Ends f.type f.pattern f.modifier h in
      elim (Bool-cases m) [
        | inl t ↦ rw (em, t) (r, e, ((λ s. (refl, forth s)), (λ a. back a.1)))
        | inr t ↦
            rw (em, t)
              (
                false,
                refl,
                ((λ s. absurd (ground (arith, s))), (λ a. absurd (ground (arith, a.0)))),
              )
      ]
