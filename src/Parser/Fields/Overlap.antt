-- ===== src/Parser/Fields/Overlap.antt =====
-- Where the fields of a template lie in its data records.
use vermont.Base.{ℕ, ◌+◌, ◌^◌, ◌≤◌, ◌<◌, ◌≡◌, Bool, List, length, All, some, ok, subst, arith}
use vermont.Record.{FieldInfo}
use vermont.Parser.Fields.{read_fields}
use vermont.Parser.Fields.Safety.{Layout, AreRead, read_fields-AreRead}
use vermont.Parser.Fields.Lengths.{
  total_length, IsInside, Any, fields-IsInside, field_outside, Layout-total_length,
}

module _ (message : List ℕ) (ipfix : Bool) (end_of_set n p : ℕ) (fields : List FieldInfo)
    (q total : ℕ) (within : end_of_set ≤ length message) (inside : p ≤ end_of_set)
    (fields_read : read_fields message ipfix end_of_set n p 0 ≡ ok (some (fields, q, total))) where
  layout : Layout 0 fields total
  layout =
      (subst (AreRead ⊥ end_of_set n p 0) fields_read
        (read_fields-AreRead message ipfix end_of_set within n p 0 inside)).3

  -- If the lengths of the fields that were read add up to less than 2^16, their sum is the record's
  -- length, and every field lies within a record.
  pub read_fields-IsInside :
      total_length fields < 2 ^ 16 → (total ≡ total_length fields) × All (IsInside total) fields
  read_fields-IsInside h = (
    omega (arith, Layout-total_length 0 fields total (omega arith) layout),
    fields-IsInside 0 fields total (omega arith) layout,
  )

  -- If they do not, the record's length is the sum modulo 2^16, and some field ends beyond every
  -- record of the template: its offset and length add up to 2^16 or more.
  pub read_fields_outside :
      2 ^ 16 ≤ total_length fields
      → (total < 2 ^ 16) × Any (λ f. 2 ^ 16 ≤ f.offset + f.type.len) fields
  read_fields_outside h = (
    omega (arith, Layout-total_length 0 fields total (omega arith) layout),
    field_outside 0 fields total (omega arith) (omega arith) layout,
  )
