-- ===== src/Aggregator/Template.antt =====
-- The template of the flow table, which `BaseHashtable::createDataTemplate` makes from a rule
-- (src/modules/ipfix/aggregator/BaseHashtable.cpp). A pointer has 8 bytes, and `PayloadPrivateData` and
-- `DpaPrivateData` (BaseHashtable.h) have 12 and 3.
pub mod Layout
pub mod Created
mod Tests
use Prim.Native.Nat.{bit_and}
use vermont.Base.{
  ℕ, ◌+◌, ◌%◌, ◌==◌, ◌&&◌, ◌||◌, if◌then◌else◌, Bool, List, [], ◌∷◌, Option, none, some,
}
use vermont.Aggregator.Field.{HashField, pen_vermont, pen_vermont_reverse}
use vermont.Aggregator.Rule.{RuleField}
use vermont.Record.{IeInfo}

pub record TableTemplate : Type 0 where
  pub fields : List HashField
  pub field_length : ℕ
  pub priv_data_length : ℕ

-- What a field adds to `fieldLength`: the pointer of a list, and nothing for another variable length
unfoldable pub width : IeInfo → ℕ
width type =
    if type.len == 65535
    then (if (type.id == 291) && (type.enterprise == 0) then 8 else 0)
    else type.len

-- The first loop, over the fields of the rule; `start` is `fieldLength`, a `uint16_t`.
unfoldable pub data_fields : ℕ → List RuleField → List HashField × ℕ
data_fields start [] = ([], start)
data_fields start (rf ∷ rfs) =
    let skipped = data_fields start rfs in
    let (fields, end) = data_fields ((start + width rf.type) % 65536) rfs in
    if rf.modifier == 0 then skipped else (
      (record {
        info = record { type = rf.type; offset = start; is_variable_length = rf.type.len == 65535 };
        priv_data_offset = 0;
      })
          ∷ fields,
      end,
    )

-- `getPrivateDataLength`
unfoldable pub private_length : IeInfo → ℕ
private_length type =
    if bit_and type.enterprise pen_vermont == 0
    then 0
    else (if (type.id == 1) || (type.id == 8)
        then 12
        else (if type.id == 6 then 3 else (if type.id == 3 then 8 else 0)))

-- The second loop; `priv` is `privDataLength`, a `uint16_t`.
unfoldable pub private_offsets : ℕ → ℕ → List HashField → List HashField × ℕ
private_offsets field_length priv [] = ([], priv)
private_offsets field_length priv (fi ∷ fis) =
    let len = private_length fi.info.type in
    let (fields, end) = private_offsets field_length ((priv + len) % 65536) fis in
    ((if len == 0 then fi else record fi { priv_data_offset = field_length + priv }) ∷ fields, end)

abbrev pub is_type : ℕ → ℕ → HashField → Bool
is_type id enterprise fi = (fi.info.type.id == id) && (fi.info.type.enterprise == enterprise)

-- `fpLengthOffset` and `revfpLengthOffset`: the private data of the last front payload
unfoldable pub front_offset : ℕ → List HashField → ℕ → ℕ
front_offset enterprise [] offset = offset
front_offset enterprise (fi ∷ fis) offset =
    front_offset enterprise fis (if is_type 1 enterprise fi then fi.priv_data_offset else offset)

-- One round of the third loop; an exception is `none`.
unfoldable pub shared_offset : ℕ → ℕ → HashField → Option HashField
shared_offset fp revfp fi =
    if is_type 2 pen_vermont fi
    then (if fp == 0 then none else some (record fi { priv_data_offset = fp }))
    else (if is_type 2 pen_vermont_reverse fi
        then (if revfp == 0 then none else some (record fi { priv_data_offset = revfp }))
        else (if is_type 4 pen_vermont fi && (fp == 0) then none else some fi))

abbrev pub consed : Option HashField → Option (List HashField) → Option (List HashField)
consed none rest = none
consed (some fi) none = none
consed (some fi) (some fis) = some (fi ∷ fis)

-- The third loop
unfoldable pub shared_offsets : ℕ → ℕ → List HashField → Option (List HashField)
shared_offsets fp revfp [] = some []
shared_offsets fp revfp (fi ∷ fis) =
    consed (shared_offset fp revfp fi) (shared_offsets fp revfp fis)

abbrev pub finished : ℕ → ℕ → Option (List HashField) → Option TableTemplate
finished field_length priv_data_length none = none
finished field_length priv_data_length (some fields) =
    some
      (record { fields = fields; field_length = field_length; priv_data_length = priv_data_length })

-- `createDataTemplate`
unfoldable pub create_data_template : List RuleField → Option TableTemplate
create_data_template rule =
    let (fields, field_length) = data_fields 0 rule in
    let (placed, priv_data_length) = private_offsets field_length 0 fields in
    finished field_length priv_data_length (
      shared_offsets (front_offset pen_vermont placed 0) (front_offset pen_vermont_reverse placed 0)
        placed)
