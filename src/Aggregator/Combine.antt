-- ===== src/Aggregator/Combine.antt =====
-- How a record is summed up into a flow: `FlowHashtable::aggregateField` and `aggregateFlow`
-- (src/modules/ipfix/aggregator/FlowHashtable.cpp). The flow and the record do not share memory.
pub mod Merge
pub mod Bits
pub mod Flow
pub mod Fields
pub mod Elements
pub mod Operations
pub mod Summed
use Prim.Native.Nat.{bit_or}
use vermont.Base.{
  ℕ, suc, ◌+◌, ◌%◌, ◌==◌, ◌&&◌, ltb, not, if◌then◌else◌, Bool, true, false, List, [], ◌∷◌,
  get_elem?, Outcome, ok, ◌>>=◌, or_fault,
}
use vermont.Record.{IeInfo}
use vermont.Aggregator.Field.{
  HashField, pen_reverse, pen_vermont, pen_vermont_reverse, one_of, is_to_be_aggregated,
}
use vermont.Aggregator.Number.{
  read_at, read_number, write_number, lesser, greater, add_u32, add_u64,
}
use vermont.Bloom.Key.{write_bytes}
use vermont.Parser.Bytes.{read_u8}

-- The cases of the `switch` in `aggregateField`; the number is that of the bytes, and the Boolean says
-- whether the length of the field is checked.
pub data Operation : Type 0 where
  earliest : ℕ → Operation
  latest : Bool → ℕ → Operation
  sum : Bool → ℕ → Operation
  control_bits : Operation
  earliest_set : ℕ → Operation
  front_payload : Operation
  front_payload_len : Operation
  no_operation : Operation

-- The labels of the cases
unfoldable pub plain_operation : ℕ → Operation
plain_operation id =
    if one_of (22 ∷ 150 ∷ 154 ∷ []) id
    then earliest 4
    else (if one_of (152 ∷ 156 ∷ []) id
        then earliest 8
        else (if one_of (21 ∷ 151 ∷ 155 ∷ []) id
            then latest true 4
            else (if one_of (153 ∷ 157 ∷ []) id
                then latest true 8
                else (if one_of (85 ∷ 1 ∷ 23 ∷ 86 ∷ 2 ∷ 24 ∷ 132 ∷ 133 ∷ []) id
                    then sum true 8
                    else (if id == 6 then control_bits else no_operation)))))

unfoldable pub reverse_operation : ℕ → Operation
reverse_operation id =
    if id == 150
    then earliest_set 4
    else (if one_of (152 ∷ 156 ∷ []) id
        then earliest_set 8
        else (if id == 151
            then latest true 4
            else (if one_of (153 ∷ 157 ∷ []) id
                then latest true 8
                else (if one_of (85 ∷ 1 ∷ 86 ∷ 2 ∷ []) id
                    then sum false 8
                    else (if id == 6 then control_bits else no_operation)))))

unfoldable pub payload_operation : ℕ → Operation
payload_operation id =
    if id == 1
    then front_payload
    else (if id == 2 then front_payload_len else (if id == 3 then latest false 4 else no_operation))

unfoldable pub operation : IeInfo → Operation
operation type =
    if type.enterprise == 0
    then plain_operation type.id
    else (if type.enterprise == pen_reverse
        then reverse_operation type.id
        else (if type.enterprise == pen_vermont
            then (if type.id == 4 then sum false 4 else payload_operation type.id)
            else (if type.enterprise == pen_vermont_reverse
                then payload_operation type.id
                else no_operation)))

-- A number of the flow, and the one of the record, give the new number of the flow.
unfoldable pub update_number : ℕ → (ℕ → ℕ → ℕ) → ℕ → ℕ → List ℕ → List ℕ → Outcome (List ℕ)
update_number n f p q base delta = do
  i ← read_number n base p
  j ← read_number n delta q
  write_number n (f i j) base p

-- The start of the reverse flow, 0 if it is not known yet
unfoldable pub earlier_set : ℕ → ℕ → ℕ
earlier_set i j = if i == 0 then j else (if ltb 0 j then lesser i j else i)

-- `tcpControlBits` of one byte, or of two; the mask 0x01ff of a little-endian number keeps the first
-- byte of the record and the lowest bit of the second.
unfoldable pub update_bits : ℕ → ℕ → ℕ → List ℕ → List ℕ → Outcome (List ℕ)
update_bits len p q base delta =
    if len == 1
    then (do b ← read_u8 base p; d ← read_u8 delta q; write_bytes base p (bit_or b d ∷ []))
    else (do
      b0 ← read_u8 base p
      b1 ← read_u8 base (p + 1)
      d0 ← read_u8 delta q
      d1 ← read_u8 delta (q + 1)
      write_bytes base p (bit_or b0 d0 ∷ bit_or b1 (d1 % 2) ∷ []))

-- `frontPayload`: taken from the first record that has some, with its length in the private data
unfoldable pub update_payload : HashField → HashField → List ℕ → List ℕ → Outcome (List ℕ)
update_payload basefi deltafi base delta = do
  plen ← read_number 4 base (basefi.priv_data_offset + 4)
  if plen == 0
      then (do
        bytes ← read_at delta deltafi.info.offset basefi.info.type.len
        base' ← write_bytes base basefi.info.offset bytes
        dlen ← read_at delta (deltafi.priv_data_offset + 4) 4
        write_bytes base' (basefi.priv_data_offset + 4) dlen)
      else ok base

-- `aggregateField`: whether the field was not aggregated, and the flow. The assertion on the length
-- of `tcpControlBits` is one of debug builds.
abbrev pub apply_operation :
    Operation → HashField → HashField → List ℕ → List ℕ → Outcome (Bool × List ℕ)
apply_operation (earliest n) b d base delta =
    if not (b.info.type.len == n) then ok (true, base) else (do
      base' ← update_number n lesser b.info.offset d.info.offset base delta
      ok (false, base'))
apply_operation (latest checked n) b d base delta =
    if checked && not (b.info.type.len == n) then ok (true, base) else (do
      base' ← update_number n greater b.info.offset d.info.offset base delta
      ok (false, base'))
apply_operation (sum checked n) b d base delta =
    if checked && not (b.info.type.len == n) then ok (true, base) else (do
      base' ←
          update_number n (if n == 8 then add_u64 else add_u32) b.info.offset d.info.offset base
            delta
      ok (false, base'))
apply_operation control_bits b d base delta = do
  base' ← update_bits b.info.type.len b.info.offset d.info.offset base delta
  ok (false, base')
apply_operation (earliest_set n) b d base delta =
    if not (b.info.type.len == n) then ok (true, base) else (do
      base' ← update_number n earlier_set b.info.offset d.info.offset base delta
      ok (false, base'))
apply_operation front_payload b d base delta = do
  base' ← update_payload b d base delta
  ok (false, base')
apply_operation front_payload_len b d base delta = do
  base' ← update_number 4 (λ i j. if i == 0 then j else i) b.info.offset d.info.offset base delta
  ok (false, base')
apply_operation no_operation b d base delta = ok (true, base)

unfoldable pub aggregate_field : HashField → HashField → List ℕ → List ℕ → Outcome (Bool × List ℕ)
aggregate_field basefi deltafi base delta =
    apply_operation (operation basefi.info.type) basefi deltafi base delta

-- The comparisons of the start times: does the record start before the flow?
unfoldable pub starts_before : HashField → List ℕ → List ℕ → Outcome Bool
starts_before fi base flow =
    if fi.info.type.id == 150
    then (do
      b ← read_number 4 base fi.info.offset
      d ← read_number 4 flow fi.info.offset
      ok (ltb d b))
    else (if one_of (152 ∷ 156 ∷ []) fi.info.type.id
        then (do
          b ← read_number 8 base fi.info.offset
          d ← read_number 8 flow fi.info.offset
          ok (ltb d b))
        else ok false)

-- The loop of `aggregateFlow` over the fields from the `i`-th on, with `result`: whether the flow is to
-- be reversed
unfoldable pub aggregate_fields :
    List HashField
    → List ℕ
    → Bool
    → ℕ
    → List HashField
    → List ℕ
    → List ℕ
    → Bool
    → Outcome (Bool × List ℕ)
aggregate_fields all mapper reverse i [] base flow result = ok (result, base)
aggregate_fields all mapper reverse i (fi ∷ fis) base flow result =
    let skipped = aggregate_fields all mapper reverse (suc i) fis base flow result in
    if not (is_to_be_aggregated fi.info.type)
    then skipped
    else (if reverse && (fi.info.type.enterprise == 0)
        then (do
          before ← starts_before fi base flow
          k ← or_fault (get_elem? mapper i)
          target ← or_fault (get_elem? all k)
          (_, base') ← aggregate_field target fi base flow
          aggregate_fields all mapper reverse (suc i) fis base' flow
              (if before then true else result))
        else (do
          (_, base') ← aggregate_field fi fi base flow
          aggregate_fields all mapper reverse (suc i) fis base' flow result))

-- `aggregateFlow`
unfoldable pub aggregate_flow :
    List HashField → List ℕ → Bool → List ℕ → List ℕ → Outcome (Bool × List ℕ)
aggregate_flow fields mapper reverse base flow =
    aggregate_fields fields mapper reverse 0 fields base flow false
