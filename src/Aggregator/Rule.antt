-- ===== src/Aggregator/Rule.antt =====
-- Which records a rule of the aggregator takes: src/modules/ipfix/aggregator/Rule.cpp, and the search
-- for a field in a template (src/modules/ipfix/IpfixRecord.cpp).
--
-- A shift of 32 bits by 32 or more is undefined in C++: it is the argument `wide`. The table of the
-- information elements that `ipfix_id_lookup` searches is the argument `known`.
pub mod Network
pub mod Ports
pub mod Reads
pub mod Matched
mod Tests
use Prim.Native.Nat.{bit_and, bit_or}
use vermont.Base.{
  ℕ, zero, suc, ◌+◌, ◌-◌, ◌*◌, ◌/◌, ◌%◌, ◌^◌, ◌==◌, ◌&&◌, ◌||◌, ltb, leb, not, if◌then◌else◌, Bool,
  true, false, List, [], ◌∷◌, Option, none, some, Outcome, ok, ◌>>=◌,
}
use vermont.Aggregator.Field.{pen_reverse, pen_vermont}
use vermont.Aggregator.Key.{same_bytes}
use vermont.Parser.Bytes.{read_u8, read_u16}
use vermont.Record.{IeInfo, FieldInfo}

-- `Rule::Field`; the pattern of a field that has none is `none`.
pub record RuleField : Type 0 where
  pub type : IeInfo
  pub pattern : Option (List ℕ)
  pub modifier : ℕ

-- `getIPv4IMask`; a length is not negative.
unfoldable pub ipv4_imask : ℕ → List ℕ → ℕ → Outcome ℕ
ipv4_imask len buf p =
    if ltb 4 len
    then read_u8 buf (p + 4)
    else ok (
        if len == 4
        then 0
        else (if len == 3 then 8 else (if len == 2 then 16 else (if len == 1 then 24 else 32))))

-- A byte of the address, if the field has it
unfoldable pub address_byte : ℕ → ℕ → List ℕ → ℕ → Outcome ℕ
address_byte i len buf p = if ltb i len then read_u8 buf (p + i) else ok 0

-- `getIPv4Address`
unfoldable pub ipv4_address : ℕ → List ℕ → ℕ → Outcome ℕ
ipv4_address len buf p = do
  a ← address_byte 0 len buf p
  b ← address_byte 1 len buf p
  c ← address_byte 2 len buf p
  d ← address_byte 3 len buf p
  ok (a * 16777216 + b * 65536 + c * 256 + d)

-- `>>` on a `uint32_t`
unfoldable pub shift_right : (ℕ → ℕ → ℕ) → ℕ → ℕ → ℕ
shift_right wide v k = if ltb k 32 then v / 2 ^ k else wide v k

-- The test of `matchesIPv4Pattern` on the masks and the addresses
unfoldable pub same_network : (ℕ → ℕ → ℕ) → ℕ → ℕ → ℕ → ℕ → Bool
same_network wide dmaski pmaski daddr paddr =
    not (ltb pmaski dmaski) && (shift_right wide daddr pmaski == shift_right wide paddr pmaski)

-- `matchesIPv4Pattern`
unfoldable pub matches_ipv4_pattern : (ℕ → ℕ → ℕ) → ℕ → List ℕ → ℕ → ℕ → List ℕ → ℕ → Outcome Bool
matches_ipv4_pattern wide dlen buf p plen pattern q = do
  dmaski ← ipv4_imask dlen buf p
  pmaski ← ipv4_imask plen pattern q
  daddr ← ipv4_address dlen buf p
  paddr ← ipv4_address plen pattern q
  ok (same_network wide dmaski pmaski daddr paddr)

-- The loop over the `n` ranges of a pattern: one of them holds the ports from `lo` to `hi`.
unfoldable pub in_ranges : ℕ → List ℕ → ℕ → ℕ → ℕ → Outcome Bool
in_ranges zero pattern q lo hi = ok false
in_ranges (suc n) pattern q lo hi =
    let rest = in_ranges n pattern (q + 4) lo hi in
    do
      pports ← read_u16 pattern q
      pporte ← read_u16 pattern (q + 2)
      if leb pports lo && leb hi pporte then ok true else rest

-- The loop over the `n` ranges of a field: each is within a range of the pattern.
unfoldable pub all_in_ranges : ℕ → List ℕ → ℕ → ℕ → List ℕ → ℕ → Outcome Bool
all_in_ranges zero buf p m pattern q = ok true
all_in_ranges (suc n) buf p m pattern q =
    let rest = all_in_ranges n buf (p + 4) m pattern q in
    do
      dports ← read_u16 buf p
      dporte ← read_u16 buf (p + 2)
      found ← in_ranges m pattern q dports dporte
      if found then rest else ok false

-- The loop over the `n` ranges of a field where the pattern is one port
unfoldable pub none_around : ℕ → List ℕ → ℕ → ℕ → Outcome Bool
none_around zero buf p pport = ok true
none_around (suc n) buf p pport =
    let rest = none_around n buf (p + 4) pport in
    do
      dports ← read_u16 buf p
      dporte ← read_u16 buf (p + 2)
      if ltb dports pport && ltb pport dporte then ok false else rest

-- `matchesPortPattern`
unfoldable pub matches_port_pattern : ℕ → List ℕ → ℕ → ℕ → List ℕ → ℕ → Outcome Bool
matches_port_pattern dlen buf p plen pattern q =
    if (dlen == 2) && (plen == 2)
    then same_bytes 2 buf p pattern q
    else (if (dlen == 2) && (plen % 4 == 0)
        then (do dport ← read_u16 buf p; in_ranges (plen / 4) pattern q dport dport)
        else (if (dlen % 4 == 0) && (plen == 2)
            then (if dlen == 0
                then ok true
                else (do pport ← read_u16 pattern q; none_around (dlen / 4) buf p pport))
            else (if (dlen % 4 == 0) && (plen % 4 == 0)
                then all_in_ranges (dlen / 4) buf p (plen / 4) pattern q
                else ok false)))

-- `matchesRawPattern`
unfoldable pub matches_raw_pattern : ℕ → List ℕ → ℕ → ℕ → List ℕ → ℕ → Outcome Bool
matches_raw_pattern dlen buf p plen pattern q =
    if dlen == plen then same_bytes dlen buf p pattern q else ok false

-- `matchesPattern` of a pattern that exists
unfoldable pub matches_pattern : (ℕ → ℕ → ℕ) → IeInfo → List ℕ → ℕ → IeInfo → List ℕ → Outcome Bool
matches_pattern wide dtype buf p ptype pattern =
    if not (dtype.id == ptype.id) || not (dtype.enterprise == ptype.enterprise)
    then ok false
    else (if (ptype.id == 8) || (ptype.id == 12)
        then matches_ipv4_pattern wide dtype.len buf p ptype.len pattern 0
        else (if (ptype.id == 7) || (ptype.id == 11)
            then matches_port_pattern dtype.len buf p ptype.len pattern 0
            else matches_raw_pattern dtype.len buf p ptype.len pattern 0))

-- `TemplateInfo::getFieldInfo`
unfoldable pub get_field_info : ℕ → ℕ → List FieldInfo → Option FieldInfo
get_field_info id enterprise [] = none
get_field_info id enterprise (fi ∷ fis) =
    let rest = get_field_info id enterprise fis in
    if (fi.type.id == id) && (fi.type.enterprise == enterprise) then some fi else rest

-- `checkMask`; the difference is a `uint8_t`.
unfoldable pub check_mask : Option FieldInfo → List ℕ → ℕ → List ℕ → Outcome Bool
check_mask none buf plen pattern = ok true
check_mask (some prefix) buf plen pattern = do
  imask ← ipv4_imask plen pattern 0
  record_prefix ← read_u8 buf prefix.offset
  ok (leb ((288 - imask) % 256) record_prefix)

-- `IeInfo::isReverseField`
unfoldable pub is_reverse_field : IeInfo → Bool
is_reverse_field type = not (bit_and type.enterprise pen_reverse == 0)

-- The prefix length in the record, for a pattern with a mask
unfoldable pub prefix_matches : List FieldInfo → List ℕ → IeInfo → List ℕ → Outcome Bool
prefix_matches fields buf type pattern =
    if (type.enterprise == 0) && (type.len == 5)
    then (if type.id == 8
        then check_mask (get_field_info 9 0 fields) buf type.len pattern
        else (if type.id == 12
            then check_mask (get_field_info 13 0 fields) buf type.len pattern
            else ok true))
    else ok true

-- A field with a pattern, for the record's field
unfoldable pub pattern_matches :
    (ℕ → ℕ → ℕ) → List FieldInfo → List ℕ → IeInfo → List ℕ → Option FieldInfo → Outcome Bool
pattern_matches wide fields buf type pattern none = ok false
pattern_matches wide fields buf type pattern (some fi) =
    let prefixed = prefix_matches fields buf type pattern in
    do
      matched ← matches_pattern wide fi.type buf fi.offset type pattern
      if matched then prefixed else ok false

-- `IPFIX_ETYPEID_anonymisationType`
abbrev pub anonymisation_type : ℕ
anonymisation_type = 9

abbrev pub is_found : Option FieldInfo → Bool
is_found none = false
is_found (some fi) = true

-- A field that is kept and has no pattern
unfoldable pub is_there : (ℕ → ℕ → Bool) → Bool → List FieldInfo → IeInfo → Bool
is_there known biflow fields type =
    is_found (get_field_info type.id type.enterprise fields)
    || ((biflow
          && known type.id (bit_or type.enterprise pen_reverse)
          && is_found (get_field_info type.id (bit_or type.enterprise pen_reverse) fields))
        || ((type.id == anonymisation_type) && (type.enterprise == pen_vermont)))

-- One round of the loop of `dataRecordMatches`
unfoldable pub field_matches :
    (ℕ → ℕ → ℕ)
    → (ℕ → ℕ → Bool)
    → Bool
    → List FieldInfo
    → List ℕ
    → IeInfo
    → Option (List ℕ)
    → ℕ
    → Outcome Bool
field_matches wide known biflow fields buf type none modifier =
    ok (is_reverse_field type || ((modifier == 0) || is_there known biflow fields type))
field_matches wide known biflow fields buf type (some pattern) modifier =
    if is_reverse_field type
    then ok true
    else pattern_matches wide fields buf type pattern
        (get_field_info type.id type.enterprise fields)

-- `Rule::dataRecordMatches`
unfoldable pub data_record_matches :
    (ℕ → ℕ → ℕ) → (ℕ → ℕ → Bool) → Bool → List FieldInfo → List ℕ → List RuleField → Outcome Bool
data_record_matches wide known biflow fields buf [] = ok true
data_record_matches wide known biflow fields buf (f ∷ fs) =
    let rest = data_record_matches wide known biflow fields buf fs in
    do
      matched ← field_matches wide known biflow fields buf f.type f.pattern f.modifier
      if matched then rest else ok false
