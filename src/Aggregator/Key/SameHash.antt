-- ===== src/Aggregator/Key/SameHash.antt =====
-- Flows that are equal have the same hash, so a lookup searches the right slot.
use Prim.Native.Nat.{bit_and, bit_and-bitwise, bit_xor, digits, min}
use mathlib.Core.Path.{fun_ext}
use vermont.Base.{
  bind-Returned, ℕ, zero, suc, ◌+◌, ◌-◌, ◌/◌, ◌%◌, ◌==◌, ◌≤◌, ◌<◌, ◌≡◌, refl, sym, ap, subst, ◌∙◌,
  inl, inr, Bool, true, false, List, [], ◌∷◌, ok, ◌>>=◌, Bool-cases, arith,
}
use vermont.Record.{IeInfo}
use vermont.Aggregator.Field.{HashField, is_to_be_aggregated}
use vermont.Aggregator.Key.{
  crc_loop, crc32, key_field, hash_fields, get_hash, same_bytes, equal_raw, equal_fields,
  equal_flow,
}
use vermont.Parser.Bytes.{read_u8}

same_bytes-crc :
    (table : ℕ → ℕ) (crc n : ℕ) (data1 : List ℕ) (p : ℕ) (data2 : List ℕ) (q : ℕ)
    → same_bytes n data1 p data2 q ≡ ok true
    → crc_loop table crc n data2 q ≡ crc_loop table crc n data1 p
unfolding same_bytes crc_loop
same_bytes-crc table crc zero data1 p data2 q h = refl
same_bytes-crc table crc (suc n) data1 p data2 q h =
    let (a, ea, h1) = bind-Returned (read_u8 data1 p) _ h in
    let (b, eb, h2) = bind-Returned (read_u8 data2 q) _ h1 in
    elim (Bool-cases (a == b)) [
      | inr e ↦ absurd (ground (arith, e, h2))
      | inl e ↦
          let same : a ≡ b = ground (arith, e) in
          let rest : same_bytes n data1 (p + 1) data2 (q + 1) ≡ ok true = ground (arith, e, h2) in
          rw (ea, eb, sym same)
            (same_bytes-crc table (bit_xor (table (bit_xor crc a % 256)) (crc / 256)) n data1
              (p + 1) data2 (q + 1) rest)
    ]

same_bytes-crc32 :
    (table : ℕ → ℕ) (seed n : ℕ) (data1 : List ℕ) (p : ℕ) (data2 : List ℕ) (q : ℕ)
    → same_bytes n data1 p data2 q ≡ ok true
    → crc32 table seed n data2 q ≡ crc32 table seed n data1 p
unfolding crc32
same_bytes-crc32 table seed n data1 p data2 q h =
    rw (same_bytes-crc table seed n data1 p data2 q h) refl

pub equal_raw-same_bytes :
    (type : IeInfo) (data1 : List ℕ) (p : ℕ) (data2 : List ℕ) (q : ℕ)
    → equal_raw type data1 p type data2 q ≡ same_bytes type.len data1 p data2 q
unfolding equal_raw
equal_raw-same_bytes type data1 p data2 q = ground arith

-- The fields of the key, and those that the mapper puts in their place, have the same lengths.
abbrev pub SameLengths : List HashField → List ℕ → Bool → ℕ → List HashField → Type 0
SameLengths all mapper reverse i [] = Unit
SameLengths all mapper reverse i (fi ∷ fis) =
    ((field : HashField)
      → key_field all mapper reverse i fi ≡ ok field
      → field.info.type.len ≡ fi.info.type.len)
    × SameLengths all mapper reverse (suc i) fis

pub key_field-false :
    (all : List HashField) (mapper : List ℕ) (i : ℕ) (fi : HashField)
    → key_field all mapper false i fi ≡ ok fi
unfolding key_field
key_field-false all mapper i fi = refl

equal_fields-hash :
    (table : ℕ → ℕ) (all : List HashField) (mapper : List ℕ) (reverse : Bool) (i : ℕ)
    (fis : List HashField) (flow1 flow2 : List ℕ) (hash : ℕ)
    → SameLengths all mapper reverse i fis
    → equal_fields all mapper reverse i fis flow1 flow2 ≡ ok true
    → hash_fields table all mapper reverse i fis flow2 hash
      ≡ hash_fields table all mapper false i fis flow1 hash
unfolding equal_fields hash_fields
equal_fields-hash table all mapper reverse i [] flow1 flow2 hash l h = refl
equal_fields-hash table all mapper reverse i (fi ∷ fis) flow1 flow2 hash l h =
    elim (Bool-cases (is_to_be_aggregated fi.info.type)) [
      | inl e ↦
          rw e (
            equal_fields-hash table all mapper reverse (suc i) fis flow1 flow2 hash l.1 (rw e at h))
      | inr e ↦
          let (field, ef, h1) = bind-Returned (key_field all mapper reverse i fi) _ (rw e at h) in
          let (same, es, h2) =
            bind-Returned
              (equal_raw fi.info.type flow1 fi.info.offset fi.info.type flow2 field.info.offset) _
              h1 in
          elim (Bool-cases same) [
            | inr f ↦ absurd (ground (arith, f, h2))
            | inl f ↦
                let rest : equal_fields all mapper reverse (suc i) fis flow1 flow2 ≡ ok true =
                  ground (arith, f, h2) in
                let bytes : same_bytes fi.info.type.len flow1 fi.info.offset flow2 field.info.offset
                    ≡ ok true =
                  sym
                    (equal_raw-same_bytes fi.info.type flow1 fi.info.offset flow2 field.info.offset)
                  ∙ es
                  ∙ ap ok f in
                rw
                  (
                    e,
                    ef,
                    key_field-false all mapper i fi,
                    l.0 field ef,
                    same_bytes-crc32 table hash fi.info.type.len flow1 fi.info.offset flow2
                        field.info.offset bytes,
                  )
                  (ap (λ k. crc32 table hash fi.info.type.len flow1 fi.info.offset >>= k)
                    (fun_ext (λ hash'.
                      equal_fields-hash table all mapper reverse (suc i) fis flow1 flow2 hash' l.1
                        rest)))
          ]
    ]

-- A flow that equalFlow finds equal to another, in its own direction or the reverse one, is hashed in
-- that direction to the slot of the other, if the fields that the mapper exchanges have the same
-- lengths.
pub get_hash-equal_flow :
    (table : ℕ → ℕ) (htable_size : ℕ) (fields : List HashField) (mapper : List ℕ) (reverse : Bool)
    (flow1 flow2 : List ℕ)
    → SameLengths fields mapper reverse 0 fields
    → equal_flow fields mapper flow1 flow2 reverse ≡ ok true
    → get_hash table htable_size fields mapper flow2 reverse
      ≡ get_hash table htable_size fields mapper flow1 false
unfolding get_hash equal_flow
get_hash-equal_flow table htable_size fields mapper reverse flow1 flow2 l h =
    rw (equal_fields-hash table fields mapper reverse 0 fields flow1 flow2 0 l h) refl

and_digits-le : (n a b : ℕ) → digits (λ d. 0) min n a b ≤ b
and_digits-le zero a b = omega arith
and_digits-le (suc n) zero b = omega arith
and_digits-le (suc n) (suc a) b =
    let rest = and_digits-le n (suc a / 2) (b / 2) in
    let last : min (suc a % 2) (b % 2) ≤ b % 2 = omega arith in omega arith

-- A hash is that of a slot.
pub get_hash-lt :
    (table : ℕ → ℕ) (htable_size : ℕ) (fields : List HashField) (mapper : List ℕ) (buf : List ℕ)
    (reverse : Bool) (hash : ℕ)
    → 0 < htable_size
    → get_hash table htable_size fields mapper buf reverse ≡ ok hash
    → hash < htable_size
unfolding get_hash
get_hash-lt table htable_size fields mapper buf reverse hash pos h =
    let (crc, _, e) = bind-Returned (hash_fields table fields mapper reverse 0 fields buf 0) _ h in
    let le : bit_and crc (htable_size - 1) ≤ htable_size - 1 =
      subst (λ v. v ≤ htable_size - 1) (sym (bit_and-bitwise crc (htable_size - 1)))
        (and_digits-le crc crc (htable_size - 1)) in
    ground (arith, e, le)
