-- ===== src/Aggregator/Combine/Merge.antt =====
-- What `aggregateField` does to a flow: it writes within the field, or in the private data.
use vermont.Base.{
  ℕ, ◌+◌, ◌%◌, ◌^◌, ◌==◌, ◌≤◌, ◌<◌, ◌≡◌, ◌⊎◌, refl, subst, List, [], ◌∷◌, length, Bool, false,
  if◌then◌else◌, Outcome, ok, ◌>>=◌, arith,
}
use Prim.Native.Nat.{bit_or}
use vermont.Record.{FieldInfo}
use vermont.Aggregator.Combine.{
  Operation, earliest, latest, sum, control_bits, earliest_set, front_payload, front_payload_len,
  no_operation, update_number, earlier_set,
}
use vermont.Aggregator.Field.{HashField}
use vermont.Aggregator.Number.{read_at, read_number, lesser, greater}
use vermont.Aggregator.Number.Memory.{
  IsBytes, read_number-within, SameOutside, read_number-write_number,
}
use vermont.Parser.Bytes.{read_u8}

-- Numbers of `n` bytes stay such under an operation.
abbrev pub Bounded : ℕ → (ℕ → ℕ → ℕ) → Type 0
Bounded n f = (i j : ℕ) → i < 256 ^ n → j < 256 ^ n → f i j < 256 ^ n

-- The length of a field fits its operation.
abbrev pub IsSized : Operation → ℕ → Type 0
IsSized (earliest n) len = len ≡ n
IsSized (latest _ n) len = len ≡ n
IsSized (sum _ n) len = (len ≡ n) × ((n ≡ 8) ⊎ (n ≡ 4))
IsSized control_bits len = (len ≡ 1) ⊎ (len ≡ 2)
IsSized (earliest_set n) len = len ≡ n
IsSized front_payload len = Unit
IsSized front_payload_len len = len ≡ 4
IsSized no_operation len = Unit

-- The number of the field is made by `f` from those of the flow and of the record.
abbrev pub Merges : ℕ → (ℕ → ℕ → ℕ) → FieldInfo → List ℕ → List ℕ → List ℕ → Type 0
Merges n f fi base flow base' =
    (i j : ℕ) × (read_number n base fi.offset ≡ ok i)
    × (read_number n flow fi.offset ≡ ok j)
    × (read_number n base' fi.offset ≡ ok (f i j))

-- Control bits of one byte, or of two: each bit of the record is set in the flow, but for the upper seven
-- of a second byte.
abbrev pub MergesBits : FieldInfo → List ℕ → List ℕ → List ℕ → Type 0
MergesBits fi base flow base' =
    ((b d : ℕ) × (read_at base fi.offset fi.type.len ≡ ok (b ∷ []))
      × (read_at flow fi.offset fi.type.len ≡ ok (d ∷ []))
      × (read_at base' fi.offset fi.type.len ≡ ok (bit_or b d ∷ [])))
    ⊎ ((b0 b1 d0 d1 : ℕ) × (read_at base fi.offset fi.type.len ≡ ok (b0 ∷ b1 ∷ []))
        × (read_at flow fi.offset fi.type.len ≡ ok (d0 ∷ d1 ∷ []))
        × (read_at base' fi.offset fi.type.len ≡ ok (bit_or b0 d0 ∷ bit_or b1 (d1 % 2) ∷ [])))

-- The bytes stay, or are those of the record.
abbrev pub MergesPayload : FieldInfo → List ℕ → List ℕ → List ℕ → Type 0
MergesPayload fi base flow base' =
    (read_at base' fi.offset fi.type.len ≡ read_at base fi.offset fi.type.len)
    ⊎ (read_at base' fi.offset fi.type.len ≡ read_at flow fi.offset fi.type.len)

-- What an operation does to its field
abbrev pub MergesBy : Operation → FieldInfo → List ℕ → List ℕ → List ℕ → Type 0
MergesBy (earliest n) = Merges n lesser
MergesBy (latest _ n) = Merges n greater
MergesBy (sum _ n) = Merges n (λ i j. (i + j) % 256 ^ n)
MergesBy control_bits = MergesBits
MergesBy (earliest_set n) = Merges n earlier_set
MergesBy front_payload = MergesPayload
MergesBy front_payload_len = Merges 4 (λ i j. if i == 0 then j else i)
MergesBy no_operation =
    λ fi base flow base'. read_at base' fi.offset fi.type.len ≡ read_at base fi.offset fi.type.len

update_number-Merges :
    (n : ℕ) (f : ℕ → ℕ → ℕ) (fi : FieldInfo) (base flow : List ℕ)
    → Bounded n f
    → fi.offset + n ≤ length base
    → fi.offset + n ≤ length flow
    → IsBytes base
    → IsBytes flow
    → (base' : List ℕ) × (update_number n f fi.offset fi.offset base flow ≡ ok base')
      × SameOutside fi.offset (fi.offset + n) base base'
      × Merges n f fi base flow base'
unfolding update_number
update_number-Merges n f fi base flow small hb hf bb bf =
    let (i, ei, li) = read_number-within n fi.offset base hb bb in
    let (j, ej, lj) = read_number-within n fi.offset flow hf bf in
    let (base', done, same, there) =
      read_number-write_number n (f i j) fi.offset base (small i j li lj) hb in
    (base', rw (ei, ej) done, same, (i, j, ei, ej, there))

pub lesser-Bounded : (n : ℕ) → Bounded n lesser
unfolding lesser
lesser-Bounded n i j h k = ground arith

pub greater-Bounded : (n : ℕ) → Bounded n greater
unfolding greater
greater-Bounded n i j h k = ground arith

pub earlier_set-Bounded : (n : ℕ) → Bounded n earlier_set
unfolding earlier_set lesser
earlier_set-Bounded n i j h k = ground arith

-- What holds of the flow after an operation on a field, in a record of `limit` bytes before its
-- private data
abbrev pub Applied : ℕ → Operation → HashField → List ℕ → List ℕ → Outcome (Bool × List ℕ) → Type 0
Applied limit op fi base flow r =
    (failed : Bool) × (base' : List ℕ) × (r ≡ ok (failed, base'))
    × (length base' ≡ length base)
    × IsBytes base'
    × ((q : ℕ)
        → q < limit
        → (q < fi.info.offset) ⊎ (fi.info.offset + fi.info.type.len ≤ q)
        → read_u8 base' q ≡ read_u8 base q)
    × MergesBy op fi.info base flow base'

-- The field lies within the record, and its private data behind it.
pub record IsPlaced (limit size : ℕ) (fi : HashField) : Type 0 where
  pub inside : fi.info.offset + fi.info.type.len ≤ limit

-- Of the operations, only that of `frontPayload` has private data: 8 bytes behind the fields.
abbrev pub IsPrivate : ℕ → ℕ → HashField → Operation → Type 0
IsPrivate limit size fi (earliest _) = Unit
IsPrivate limit size fi (latest _ _) = Unit
IsPrivate limit size fi (sum _ _) = Unit
IsPrivate limit size fi control_bits = Unit
IsPrivate limit size fi (earliest_set _) = Unit
IsPrivate limit size fi front_payload =
    (limit ≤ fi.priv_data_offset) × (fi.priv_data_offset + 8 ≤ size)
IsPrivate limit size fi front_payload_len = Unit
IsPrivate limit size fi no_operation = Unit

pub numbers-Applied :
    (limit size n : ℕ) (f : ℕ → ℕ → ℕ) (op : Operation) (fi : HashField) (base flow : List ℕ)
    → Bounded n f
    → IsPlaced limit size fi
    → fi.info.type.len ≡ n
    → limit ≤ length base
    → limit ≤ length flow
    → IsBytes base
    → IsBytes flow
    → ((base' : List ℕ) → Merges n f fi.info base flow base' → MergesBy op fi.info base flow base')
    → Applied limit op fi base flow
        (do base' ← update_number n f fi.info.offset fi.info.offset base flow; ok (false, base'))
numbers-Applied limit size n f op fi base flow small placed len hb hf bb bf g =
    let (base', done, same, merged) =
      update_number-Merges n f fi.info base flow small (omega (arith, placed.inside))
        (omega (arith, placed.inside)) bb bf in
    (
      false,
      base',
      rw done refl,
      same.0,
      same.1 bb,
      λ q l out. same.2 q (subst (λ k. (q < fi.info.offset) ⊎ (fi.info.offset + k ≤ q)) len out),
      g base' merged,
    )
