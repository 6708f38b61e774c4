-- ===== src/Parser/Fields.antt =====
-- The field specifiers of a template record, as `processTemplateSet` and `processOptionsTemplateSet`
-- read them.
use vermont.Base.{
  ℕ, zero, suc, ◌+◌, ◌-◌, ◌%◌, ◌^◌, ◌==◌, ltb, leb, if◌then◌else◌, ◌&&◌, ◌||◌, Bool, true, false,
  List, [], ◌∷◌, map, Option, some, none, Outcome, ok, ◌>>=◌,
}
use vermont.Record.{IeInfo, FieldInfo}
use vermont.Parser.Bytes.{read_u16, read_u32}
pub mod Safety
pub mod Lengths
pub mod Overlap

abbrev pub field_at : ℕ → ℕ → ℕ → ℕ → FieldInfo
field_at id enterprise len offset = record {
  type = record { id = id; enterprise = enterprise; len = len };
  offset = offset;
  is_variable_length = len == 65535;
}

-- What follows the id and the length of a field. `ipfix` is the test of the set id: only there the
-- highest bit of the field id (`IPFIX_ENTERPRISE_TYPE`) announces an enterprise number.
unfoldable pub read_enterprise :
    List ℕ → Bool → ℕ → ℕ → ℕ → ℕ → ℕ → Outcome (Option (FieldInfo × ℕ × ℕ))
read_enterprise message ipfix end_of_set p record_length id len =
    let record_length' = (record_length + len) % 2 ^ 16 in
    let field = λ (id' : ℕ) (enterprise : ℕ). field_at id' enterprise len record_length in
    if leb 0x8000 id && ipfix
    then (if ltb end_of_set (p + 8) then ok none else (do
      enterprise ← read_u32 message (p + 4)
      ok (some (field (id - 0x8000) enterprise, p + 8, record_length'))))
    else ok (some (field id 0, p + 4, record_length'))

-- One field: its description, the pointer behind it and the `uint16_t recordLength` so far; `none`
-- where the field does not lie within the set.
unfoldable pub read_field : List ℕ → Bool → ℕ → ℕ → ℕ → Outcome (Option (FieldInfo × ℕ × ℕ))
read_field message ipfix end_of_set p record_length = if ltb end_of_set (p + 4) then ok none else do
  id ← read_u16 message p
  len ← read_u16 message (p + 2)
  read_enterprise message ipfix end_of_set p record_length id len

abbrev pub cons_field :
    FieldInfo → Option (List FieldInfo × ℕ × ℕ) → Outcome (Option (List FieldInfo × ℕ × ℕ))
cons_field f none = ok none
cons_field f (some (fs, p, record_length)) = ok (some (f ∷ fs, p, record_length))

-- The loop over `fieldNo`, with the rounds left: the fields, the pointer behind them, and
-- `recordLength`; `none` as above.
unfoldable pub read_fields :
    List ℕ → Bool → ℕ → ℕ → ℕ → ℕ → Outcome (Option (List FieldInfo × ℕ × ℕ))
read_fields message ipfix end_of_set zero p record_length = ok (some ([], p, record_length))
read_fields message ipfix end_of_set (suc n) p record_length = do
  field ← read_field message ipfix end_of_set p record_length
  elim field [
    | none ↦ ok none
    | some (f, p', record_length') ↦
        read_fields message ipfix end_of_set n p' record_length' >>= cons_field f
  ]

-- `isLengthVarying`
abbrev pub is_length_varying : List FieldInfo → Bool
is_length_varying [] = false
is_length_varying (f ∷ fs) = f.is_variable_length || is_length_varying fs

-- 0xFFFFFFFF stands for an unknown offset.
abbrev pub unknown_offset : FieldInfo → FieldInfo
unknown_offset f = record f { offset = 0xFFFFFFFF }

-- The offsets of a template's fields once all are read.
abbrev pub final_offsets : Bool → List FieldInfo → List FieldInfo
final_offsets varying fs = if varying then map unknown_offset fs else fs
