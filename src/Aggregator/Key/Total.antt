-- ===== src/Aggregator/Key/Total.antt =====
-- Reads of a flow's key stay within the flow.
use vermont.Base.{
  ℕ, zero, suc, ◌+◌, ◌-◌, ◌/◌, ◌%◌, ◌==◌, ◌≤◌, ◌≡◌, refl, inl, inr, Bool, true, false, List, [],
  ◌∷◌, length, ok, Bool-cases, All, arith,
}
use Prim.Native.Nat.{bit_and, bit_xor}
use vermont.Aggregator.Field.{HashField, is_to_be_aggregated}
use vermont.Aggregator.Key.{
  crc_loop, crc32, hash_fields, get_hash, same_bytes, equal_fields, equal_flow,
}
use vermont.Aggregator.Key.SameHash.{key_field-false, equal_raw-same_bytes}
use vermont.Parser.Bytes.{read_u8_within}

-- The field lies within a buffer.
abbrev pub FitsIn : List ℕ → HashField → Type 0
FitsIn buf fi = fi.info.offset + fi.info.type.len ≤ length buf

crc_loop-within :
    (table : ℕ → ℕ) (crc n : ℕ) (buf : List ℕ) (p : ℕ)
    → p + n ≤ length buf
    → (r : ℕ) × (crc_loop table crc n buf p ≡ ok r)
unfolding crc_loop
crc_loop-within table crc zero buf p h = (crc, refl)
crc_loop-within table crc (suc n) buf p h =
    let (b, e) = read_u8_within buf p (omega (arith, h)) in
    rw e (
      crc_loop-within table (bit_xor (table (bit_xor crc b % 256)) (crc / 256)) n buf (p + 1)
        (omega (arith, h)))

crc32-within :
    (table : ℕ → ℕ) (crc n : ℕ) (buf : List ℕ) (p : ℕ)
    → p + n ≤ length buf
    → (r : ℕ) × (crc32 table crc n buf p ≡ ok r)
unfolding crc32
crc32-within table crc n buf p h =
    let (r, e) = crc_loop-within table crc n buf p h in (bit_xor r 4294967295, rw e refl)

hash_fields-within :
    (table : ℕ → ℕ) (all : List HashField) (mapper : List ℕ) (i : ℕ) (fis : List HashField)
    (buf : List ℕ) (hash : ℕ)
    → All (FitsIn buf) fis
    → (r : ℕ) × (hash_fields table all mapper false i fis buf hash ≡ ok r)
unfolding hash_fields
hash_fields-within table all mapper i [] buf hash h = (hash, refl)
hash_fields-within table all mapper i (fi ∷ fis) buf hash h =
    elim (Bool-cases (is_to_be_aggregated fi.info.type)) [
      | inl e ↦ rw e (hash_fields-within table all mapper (suc i) fis buf hash h.1)
      | inr e ↦
          let (crc, ec) = crc32-within table hash fi.info.type.len buf fi.info.offset h.0 in
          rw (e, key_field-false all mapper i fi, ec)
            (hash_fields-within table all mapper (suc i) fis buf crc h.1)
    ]

-- The hash of a flow that has its fields
pub get_hash-within :
    (table : ℕ → ℕ) (htable_size : ℕ) (fields : List HashField) (mapper buf : List ℕ)
    → All (FitsIn buf) fields
    → (r : ℕ) × (get_hash table htable_size fields mapper buf false ≡ ok r)
unfolding get_hash
get_hash-within table htable_size fields mapper buf h =
    let (r, e) = hash_fields-within table fields mapper 0 fields buf 0 h in
    (bit_and r (htable_size - 1), rw e refl)

pub same_bytes-within :
    (n : ℕ) (data1 : List ℕ) (p : ℕ) (data2 : List ℕ) (q : ℕ)
    → p + n ≤ length data1
    → q + n ≤ length data2
    → (r : Bool) × (same_bytes n data1 p data2 q ≡ ok r)
unfolding same_bytes
same_bytes-within zero data1 p data2 q h k = (true, refl)
same_bytes-within (suc n) data1 p data2 q h k =
    let (a, ea) = read_u8_within data1 p (omega (arith, h)) in
    let (b, eb) = read_u8_within data2 q (omega (arith, k)) in
    let (r, er) =
      same_bytes-within n data1 (p + 1) data2 (q + 1) (omega (arith, h)) (omega (arith, k)) in
    elim (Bool-cases (a == b)) [
      | inl e ↦ rw (ea, eb, e) (r, er)
      | inr e ↦ rw (ea, eb, e) (false, refl)
    ]

equal_fields-within :
    (all : List HashField) (mapper : List ℕ) (i : ℕ) (fis : List HashField) (flow1 flow2 : List ℕ)
    → All (FitsIn flow1) fis
    → All (FitsIn flow2) fis
    → (r : Bool) × (equal_fields all mapper false i fis flow1 flow2 ≡ ok r)
unfolding equal_fields
equal_fields-within all mapper i [] flow1 flow2 h k = (true, refl)
equal_fields-within all mapper i (fi ∷ fis) flow1 flow2 h k =
    let (rest, er) = equal_fields-within all mapper (suc i) fis flow1 flow2 h.1 k.1 in
    elim (Bool-cases (is_to_be_aggregated fi.info.type)) [
      | inl e ↦ rw e (rest, er)
      | inr e ↦
          let (same, es) =
            same_bytes-within fi.info.type.len flow1 fi.info.offset flow2 fi.info.offset h.0 k.0 in
          elim (Bool-cases same) [
            | inl f ↦
                rw
                  (
                    e,
                    key_field-false all mapper i fi,
                    equal_raw-same_bytes fi.info.type flow1 fi.info.offset flow2 fi.info.offset,
                    es,
                    f,
                  )
                  (rest, er)
            | inr f ↦
                rw
                  (
                    e,
                    key_field-false all mapper i fi,
                    equal_raw-same_bytes fi.info.type flow1 fi.info.offset flow2 fi.info.offset,
                    es,
                    f,
                  )
                  (false, refl)
          ]
    ]

-- The comparison of two flows that have their fields
pub equal_flow-within :
    (fields : List HashField) (mapper flow1 flow2 : List ℕ)
    → All (FitsIn flow1) fields
    → All (FitsIn flow2) fields
    → (r : Bool) × (equal_flow fields mapper flow1 flow2 false ≡ ok r)
unfolding equal_flow
equal_flow-within fields mapper flow1 flow2 h k =
    equal_fields-within fields mapper 0 fields flow1 flow2 h k
