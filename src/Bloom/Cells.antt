-- ===== src/Bloom/Cells.antt =====
-- The arrays of cells of src/common/bloom: `Bitmap` (BloomFilter.cpp), `AgeArray`
-- (AgeBloomFilter.cpp) and `CountArray` (CountBloomFilter.cpp). The memory of an array is a list; an
-- octet is its eight bits, the lowest first.
use vermont.Base.{
  ℕ, ◌+◌, ◌/◌, ◌%◌, ◌^◌, ltb, if◌then◌else◌, Bool, true, false, List, length, get_elem?, set,
  replicate, Outcome, ok, overflow, ◌>>=◌, or_fault,
}
use vermont.Bloom.{CellOps}

-- A write into an array in memory
unfoldable pub write_at : {A : Type 0} → List A → ℕ → A → Outcome (List A)
write_at xs i v = if ltb i (length xs) then ok (set xs i v) else overflow

-- `Bitmap`
pub record Bitmap : Type 0 where
  pub len_bits : ℕ
  pub bitmap : List (List Bool)

-- `Bitmap::resize`
unfoldable pub resize_bitmap : ℕ → Bitmap
resize_bitmap size = record {
  len_bits = size;
  bitmap = replicate ((size + 7) / 8) (replicate 8 false);
}

-- `Bitmap::set`
unfoldable pub set_bit : ℕ → Bool → Bitmap → Outcome Bitmap
set_bit index v b =
    if ltb index b.len_bits
    then (do
      octet ← or_fault (get_elem? b.bitmap (index / 8))
      octet' ← write_at octet (index % 8) true
      bitmap' ← write_at b.bitmap (index / 8) octet'
      ok (record b { bitmap = bitmap' }))
    else ok b

-- `Bitmap::get`
unfoldable pub get_bit : ℕ → Bitmap → Outcome Bool
get_bit index b =
    if ltb index b.len_bits
    then (do
      octet ← or_fault (get_elem? b.bitmap (index / 8))
      or_fault (get_elem? octet (index % 8)))
    else ok false

abbrev pub bitmap_ops : CellOps Bitmap Bool
bitmap_ops = record { resize = resize_bitmap; set_cell = set_bit; get_cell = get_bit }

-- `AgeArray` and `CountArray`
pub record NumberArray : Type 0 where
  pub array_size : ℕ
  pub array : List ℕ

-- `resize` of both
unfoldable pub resize_array : ℕ → NumberArray
resize_array size = record { array_size = size; array = replicate size 0 }

-- `AgeArray::set`
unfoldable pub set_age : ℕ → ℕ → NumberArray → Outcome NumberArray
set_age index time a =
    if ltb index a.array_size
    then (do array' ← write_at a.array index time; ok (record a { array = array' }))
    else ok a

-- `get` of both
unfoldable pub get_number : ℕ → NumberArray → Outcome ℕ
get_number index a = if ltb index a.array_size then or_fault (get_elem? a.array index) else ok 0

-- `CountArray::set`: an `int` is its 32-bit pattern.
unfoldable pub set_count : ℕ → ℕ → NumberArray → Outcome NumberArray
set_count index value a =
    if ltb index a.array_size
    then (do
      old ← or_fault (get_elem? a.array index)
      array' ← write_at a.array index ((old + value) % 2 ^ 32)
      ok (record a { array = array' }))
    else ok a

abbrev pub age_ops : CellOps NumberArray ℕ
age_ops = record { resize = resize_array; set_cell = set_age; get_cell = get_number }

abbrev pub count_ops : CellOps NumberArray ℕ
count_ops = record { resize = resize_array; set_cell = set_count; get_cell = get_number }

-- `current < ret` on the bit patterns of two `int` values
unfoldable pub int_lt : ℕ → ℕ → Bool
int_lt a b = ltb ((a + 2 ^ 31) % 2 ^ 32) ((b + 2 ^ 31) % 2 ^ 32)
