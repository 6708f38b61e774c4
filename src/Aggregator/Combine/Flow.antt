-- ===== src/Aggregator/Combine/Flow.antt =====
-- `aggregateFlow` sums up each field of a flow by itself.
use mathlib.Core.Path.{fun_ext}
use vermont.Base.{
  ℕ, ◌+◌, ◌%◌, ◌^◌, ◌==◌, ◌≤◌, ◌<◌, ◌≡◌, ◌⊎◌, inl, inr, refl, sym, ◌∙◌, List, [], ◌∷◌, length, Bool,
  true, false, not, ◌&&◌, if◌then◌else◌, arith,
}
use vermont.Aggregator.Combine.{
  Operation, earliest, latest, sum, control_bits, earliest_set, front_payload, front_payload_len,
  no_operation, operation, apply_operation, earlier_set,
}
use vermont.Aggregator.Combine.Merge.{
  Bounded, IsSized, Merges, MergesBits, MergesPayload, MergesBy, Applied, IsPlaced, IsPrivate,
  numbers-Applied, lesser-Bounded, greater-Bounded, earlier_set-Bounded,
}
use vermont.Aggregator.Combine.Bits.{control_bits-Applied, front_payload-Applied}
use vermont.Aggregator.Field.{HashField, is_to_be_aggregated}
use vermont.Aggregator.Number.{read_at, read_number, lesser, greater, add_u32, add_u64}
use vermont.Aggregator.Number.Memory.{IsBytes, read_at-same}
use vermont.Parser.Bytes.{read_u8}

-- The record and the flow have room for their fields and private data, and hold bytes.
pub record AreBuffers (limit size : ℕ) (base flow : List ℕ) : Type 0 where
  pub base_fields : limit ≤ length base
  pub base_private : size ≤ length base
  pub flow_fields : limit ≤ length flow
  pub flow_private : size ≤ length flow
  pub base_bytes : IsBytes base
  pub flow_bytes : IsBytes flow

sized : (len n : ℕ) (checked : Bool) → len ≡ n → (checked && not (len == n)) ≡ false
sized len n checked h = ground arith

sum_function :
    (n : ℕ) → (n ≡ 8) ⊎ (n ≡ 4) → (if n == 8 then add_u64 else add_u32) ≡ (λ i j. (i + j) % 256 ^ n)
unfolding add_u64 add_u32
sum_function n (inl e) = rw e (fun_ext (λ i. fun_ext (λ j. refl)))
sum_function n (inr e) = rw e (fun_ext (λ i. fun_ext (λ j. refl)))

wrapped-Bounded : (n : ℕ) → (n ≡ 8) ⊎ (n ≡ 4) → Bounded n (λ i j. (i + j) % 256 ^ n)
wrapped-Bounded n (inl e) i j h k = rw e (omega arith)
wrapped-Bounded n (inr e) i j h k = rw e (omega arith)

pub apply_operation-Applied :
    (op : Operation) (limit size : ℕ) (fi : HashField) (base flow : List ℕ)
    → IsPlaced limit size fi
    → IsSized op fi.info.type.len
    → IsPrivate limit size fi op
    → AreBuffers limit size base flow
    → Applied limit op fi base flow (apply_operation op fi fi base flow)
apply_operation-Applied (earliest n) limit size fi base flow p s v b =
    rw (sized fi.info.type.len n true s) (
      numbers-Applied limit size n lesser (earliest n) fi base flow (lesser-Bounded n) p s
        b.base_fields b.flow_fields b.base_bytes b.flow_bytes (λ base' m. m))
apply_operation-Applied (latest checked n) limit size fi base flow p s v b =
    rw (sized fi.info.type.len n checked s) (
      numbers-Applied limit size n greater (latest checked n) fi base flow (greater-Bounded n) p s
        b.base_fields b.flow_fields b.base_bytes b.flow_bytes (λ base' m. m))
apply_operation-Applied (sum checked n) limit size fi base flow p (s, w) v b =
    rw (sized fi.info.type.len n checked s, sum_function n w)
      (numbers-Applied limit size n (λ i j. (i + j) % 256 ^ n) (sum checked n) fi base flow
        (wrapped-Bounded n w) p s b.base_fields b.flow_fields b.base_bytes b.flow_bytes
        (λ base' m. m))
apply_operation-Applied control_bits limit size fi base flow p s v b =
    control_bits-Applied limit size fi base flow p s b.base_fields b.flow_fields b.base_bytes
      b.flow_bytes
apply_operation-Applied (earliest_set n) limit size fi base flow p s v b =
    rw (sized fi.info.type.len n true s) (
      numbers-Applied limit size n earlier_set (earliest_set n) fi base flow (earlier_set-Bounded n)
        p s b.base_fields b.flow_fields b.base_bytes b.flow_bytes (λ base' m. m))
apply_operation-Applied front_payload limit size fi base flow p s v b =
    front_payload-Applied limit size fi base flow p v b.base_fields b.base_private b.flow_private
      b.base_bytes b.flow_bytes
apply_operation-Applied front_payload_len limit size fi base flow p s v b =
    numbers-Applied limit size 4 (λ i j. if i == 0 then j else i) front_payload_len fi base flow
      (λ i j h k. ground arith) p s b.base_fields b.flow_fields b.base_bytes b.flow_bytes
      (λ base' m. m)
apply_operation-Applied no_operation limit size fi base flow p s v b =
    (true, base, refl, refl, b.base_bytes, λ q l out. refl, refl)

-- The fields lie one behind the other.
abbrev pub InOrder : ℕ → List HashField → Type 0
InOrder start [] = Unit
InOrder start (fi ∷ fis) =
    (start ≤ fi.info.offset) × InOrder (fi.info.offset + fi.info.type.len) fis

-- What `aggregateFlow` is to do to a field: sum it up by its operation, or leave it alone.
abbrev pub MergedIf : Bool → HashField → List ℕ → List ℕ → List ℕ → Type 0
MergedIf true fi base flow base' = MergesBy (operation fi.info.type) fi.info base flow base'
MergedIf false fi base flow base' =
    read_at base' fi.info.offset fi.info.type.len ≡ read_at base fi.info.offset fi.info.type.len

abbrev pub IsMerged : HashField → List ℕ → List ℕ → List ℕ → Type 0
IsMerged fi = MergedIf (is_to_be_aggregated fi.info.type) fi

-- Two buffers have the same bytes in a field.
abbrev pub SameIn : HashField → List ℕ → List ℕ → Type 0
SameIn fi buffer buffer' =
    (q : ℕ)
    → fi.info.offset ≤ q
    → q < fi.info.offset + fi.info.type.len
    → read_u8 buffer' q ≡ read_u8 buffer q

number_same :
    (n : ℕ) (fi : HashField) (buffer buffer' : List ℕ)
    → fi.info.type.len ≡ n
    → SameIn fi buffer buffer'
    → read_number n buffer' fi.info.offset ≡ read_number n buffer fi.info.offset
unfolding read_number
number_same n fi buffer buffer' e h =
    rw (read_at-same buffer buffer' fi.info.offset n (λ q a b. h q a (omega arith))) refl

Merges-same :
    (n : ℕ) (f : ℕ → ℕ → ℕ) (fi : HashField) (base flow base' base2 base2' : List ℕ)
    → fi.info.type.len ≡ n
    → SameIn fi base base2
    → SameIn fi base' base2'
    → Merges n f fi.info base flow base'
    → Merges n f fi.info base2 flow base2'
Merges-same n f fi base flow base' base2 base2' e h k (i, j, p, q, r) =
    (i, j, number_same n fi base base2 e h ∙ p, q, number_same n fi base' base2' e k ∙ r)

field_same :
    (fi : HashField) (buffer buffer' : List ℕ)
    → SameIn fi buffer buffer'
    → read_at buffer' fi.info.offset fi.info.type.len
      ≡ read_at buffer fi.info.offset fi.info.type.len
field_same fi b b' h = read_at-same b b' fi.info.offset fi.info.type.len h

MergesBits-same :
    (fi : HashField) (base flow base' base2 base2' : List ℕ)
    → SameIn fi base base2
    → SameIn fi base' base2'
    → MergesBits fi.info base flow base'
    → MergesBits fi.info base2 flow base2'
MergesBits-same fi base flow base' base2 base2' h k (inl (b, d, p, q, r)) =
    inl (b, d, field_same fi base base2 h ∙ p, q, field_same fi base' base2' k ∙ r)
MergesBits-same fi base flow base' base2 base2' h k (inr (b0, b1, d0, d1, p, q, r)) =
    inr (b0, b1, d0, d1, field_same fi base base2 h ∙ p, q, field_same fi base' base2' k ∙ r)

MergesPayload-same :
    (fi : HashField) (base flow base' base2 base2' : List ℕ)
    → SameIn fi base base2
    → SameIn fi base' base2'
    → MergesPayload fi.info base flow base'
    → MergesPayload fi.info base2 flow base2'
MergesPayload-same fi base flow base' base2 base2' h k (inl p) =
    inl (field_same fi base' base2' k ∙ p ∙ sym (field_same fi base base2 h))
MergesPayload-same fi base flow base' base2 base2' h k (inr p) =
    inr (field_same fi base' base2' k ∙ p)

MergesBy-same :
    (op : Operation) (fi : HashField) (base flow base' base2 base2' : List ℕ)
    → IsSized op fi.info.type.len
    → SameIn fi base base2
    → SameIn fi base' base2'
    → MergesBy op fi.info base flow base'
    → MergesBy op fi.info base2 flow base2'
MergesBy-same (earliest n) fi b w b' c c' s h k m = Merges-same n _ fi b w b' c c' s h k m
MergesBy-same (latest _ n) fi b w b' c c' s h k m = Merges-same n _ fi b w b' c c' s h k m
MergesBy-same (sum _ n) fi b w b' c c' s h k m = Merges-same n _ fi b w b' c c' s.0 h k m
MergesBy-same control_bits fi b w b' c c' s h k m = MergesBits-same fi b w b' c c' h k m
MergesBy-same (earliest_set n) fi b w b' c c' s h k m = Merges-same n _ fi b w b' c c' s h k m
MergesBy-same front_payload fi b w b' c c' s h k m = MergesPayload-same fi b w b' c c' h k m
MergesBy-same front_payload_len fi b w b' c c' s h k m = Merges-same 4 _ fi b w b' c c' s h k m
MergesBy-same no_operation fi b w b' c c' s h k m =
    read_at-same b' c' fi.info.offset fi.info.type.len k
    ∙ m
    ∙ sym (read_at-same b c fi.info.offset fi.info.type.len h)

pub MergedIf-same :
    (t : Bool) (fi : HashField) (base flow base' base2 base2' : List ℕ)
    → IsSized (operation fi.info.type) fi.info.type.len
    → SameIn fi base base2
    → SameIn fi base' base2'
    → MergedIf t fi base flow base'
    → MergedIf t fi base2 flow base2'
MergedIf-same true fi b w b' c c' s h k m =
    MergesBy-same (operation fi.info.type) fi b w b' c c' s h k m
MergedIf-same false fi b w b' c c' s h k m =
    read_at-same b' c' fi.info.offset fi.info.type.len k
    ∙ m
    ∙ sym (read_at-same b c fi.info.offset fi.info.type.len h)
