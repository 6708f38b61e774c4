-- ===== src/Aggregator/Key.antt =====
-- The key of a flow: its fields that are not summed up. `FlowHashtable::getHash` and `equalFlow`
-- (src/modules/ipfix/aggregator/FlowHashtable.cpp), and `crc32` (src/common/crc.hpp) over its table.
pub mod SameHash
pub mod Total
use Prim.Native.Nat.{bit_and, bit_xor}
use vermont.Base.{
  ℕ, zero, suc, ◌+◌, ◌-◌, ◌/◌, ◌%◌, ◌==◌, ◌&&◌, not, if◌then◌else◌, Bool, true, false, List, [],
  ◌∷◌, get_elem?, Outcome, ok, ◌>>=◌, or_fault,
}
use vermont.Record.{IeInfo}
use vermont.Aggregator.Field.{HashField, is_to_be_aggregated}
use vermont.Parser.Bytes.{read_u8}

-- The loop of `crc32`
unfoldable pub crc_loop : (ℕ → ℕ) → ℕ → ℕ → List ℕ → ℕ → Outcome ℕ
crc_loop table crc zero buf p = ok crc
crc_loop table crc (suc size) buf p = do
  b ← read_u8 buf p
  crc_loop table (bit_xor (table (bit_xor crc b % 256)) (crc / 256)) size buf (p + 1)

-- `crc32`: `~0U` is 2^32 - 1.
unfoldable pub crc32 : (ℕ → ℕ) → ℕ → ℕ → List ℕ → ℕ → Outcome ℕ
crc32 table seed size buf p = do crc ← crc_loop table seed size buf p; ok (bit_xor crc 4294967295)

-- `fieldInfo[i]` or `fieldInfo[revKeyMapper[i]]`
unfoldable pub key_field : List HashField → List ℕ → Bool → ℕ → HashField → Outcome HashField
key_field all rev_key_mapper reverse i fi =
    if reverse
    then (do k ← or_fault (get_elem? rev_key_mapper i); or_fault (get_elem? all k))
    else ok fi

-- The loop of `getHash` over the fields from the `i`-th on
unfoldable pub hash_fields :
    (ℕ → ℕ) → List HashField → List ℕ → Bool → ℕ → List HashField → List ℕ → ℕ → Outcome ℕ
hash_fields table all mapper reverse i [] buf hash = ok hash
hash_fields table all mapper reverse i (fi ∷ fis) buf hash =
    let skipped = hash_fields table all mapper reverse (suc i) fis buf hash in
    if is_to_be_aggregated fi.info.type then skipped else (do
      field ← key_field all mapper reverse i fi
      hash' ← crc32 table hash field.info.type.len buf field.info.offset
      hash_fields table all mapper reverse (suc i) fis buf hash')

-- `getHash`
unfoldable pub get_hash : (ℕ → ℕ) → ℕ → List HashField → List ℕ → List ℕ → Bool → Outcome ℕ
get_hash table htable_size fields mapper buf reverse = do
  hash ← hash_fields table fields mapper reverse 0 fields buf 0
  ok (bit_and hash (htable_size - 1))

-- The loop of `equalRaw`
unfoldable pub same_bytes : ℕ → List ℕ → ℕ → List ℕ → ℕ → Outcome Bool
same_bytes zero data1 p data2 q = ok true
same_bytes (suc n) data1 p data2 q = do
  a ← read_u8 data1 p
  b ← read_u8 data2 q
  let rest = same_bytes n data1 (p + 1) data2 (q + 1)
  if a == b then rest else ok false

-- `equalRaw`
unfoldable pub equal_raw : IeInfo → List ℕ → ℕ → IeInfo → List ℕ → ℕ → Outcome Bool
equal_raw type1 data1 p type2 data2 q =
    if not (type1.id == type2.id)
    then ok false
    else (if not (type1.len == type2.len)
        then ok false
        else (if not (type1.enterprise == type2.enterprise)
            then ok false
            else same_bytes type1.len data1 p data2 q))

-- The loop of `equalFlow` over the fields from the `i`-th on
unfoldable pub equal_fields :
    List HashField → List ℕ → Bool → ℕ → List HashField → List ℕ → List ℕ → Outcome Bool
equal_fields all mapper reverse i [] flow1 flow2 = ok true
equal_fields all mapper reverse i (fi ∷ fis) flow1 flow2 =
    let rest = equal_fields all mapper reverse (suc i) fis flow1 flow2 in
    if is_to_be_aggregated fi.info.type then rest else (do
      field ← key_field all mapper reverse i fi
      same ← equal_raw fi.info.type flow1 fi.info.offset fi.info.type flow2 field.info.offset
      if same then rest else ok false)

-- `equalFlow` of two flows in different memory
unfoldable pub equal_flow : List HashField → List ℕ → List ℕ → List ℕ → Bool → Outcome Bool
equal_flow fields mapper flow1 flow2 reverse =
    equal_fields fields mapper reverse 0 fields flow1 flow2
