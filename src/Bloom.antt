-- ===== src/Bloom.antt =====
-- The Bloom filters of src/common/bloom: `BloomFilterBase.h`, `BloomFilter.cpp` and `MinBloomFilter.h`.
-- An array of cells is a record of its operations, which Bloom/Cells fills.
pub mod Cells
pub mod Laws
pub mod Key
mod Tests
pub mod Marks
pub mod NoMiss
use vermont.Base.{
  ℕ, suc, ◌+◌, ◌*◌, ◌%◌, ◌^◌, if◌then◌else◌, Bool, true, false, List, [], ◌∷◌, length, get_elem?,
  set, take, replicate, Outcome, ok, overflow, ◌>>=◌, or_fault, Option, none, some,
}

-- What `BloomFilterBase<T>` asks of `T`, whose `ValueType` is `V`. An access beyond the memory of the
-- array is a fault.
pub record CellOps (T V : Type 0) : Type 0 where
  pub resize : ℕ → T
  pub set_cell : ℕ → V → T → Outcome T
  pub get_cell : ℕ → T → Outcome V

-- `BloomFilterBase<T>`, with the seeds of its `HashParams`
pub record BloomFilterBase (T : Type 0) : Type 0 where
  pub filter_ : List T
  pub filter_size : ℕ
  pub cms : Bool
  pub seeds : List ℕ

-- The sum that `hashU` builds; `rng` gives the numbers that `gsl_rng_get` returns after
-- `gsl_rng_set`.
unfoldable pub hash_sum : (ℕ → ℕ) → ℕ → List ℕ → ℕ → ℕ
hash_sum rng i [] result = result
hash_sum rng i (b ∷ bs) result = hash_sum rng (suc i) bs ((result + b * rng i) % 2 ^ 32)

-- `hashU`: its length is a `uint16_t`.
unfoldable pub hash_u : (ℕ → ℕ → ℕ) → List ℕ → ℕ → ℕ → ℕ → ℕ
hash_u rng input len max seed = hash_sum (rng seed) 0 (take (len % 2 ^ 16) input) 0 % max

module _ {T V : Type 0} (cells : CellOps T V) where
  -- The constructor of `BloomFilterBase`: one array, or one for each hash function.
  unfoldable pub new_filter : List ℕ → ℕ → Bool → BloomFilterBase T
  new_filter hash_params filter_size cms = record {
    filter_ = replicate (if cms then 1 else length hash_params) (cells.resize filter_size);
    filter_size = filter_size;
    cms = cms;
    seeds = hash_params;
  }

  -- `filter_[0]` or `filter_[i]`
  abbrev pub row : Bool → ℕ → ℕ
  row cms i = if cms then 0 else i

  -- `filter_[r].set(k, v)`
  unfoldable pub set_row : ℕ → ℕ → V → List T → Outcome (List T)
  set_row r k v filter = do
    a ← or_fault (get_elem? filter r)
    a' ← cells.set_cell k v a
    ok (set filter r a')

  -- `filter_[r].get(k)`
  unfoldable pub get_row : ℕ → ℕ → List T → Outcome V
  get_row r k filter = do a ← or_fault (get_elem? filter r); cells.get_cell k a

  -- The loop of `set` over the seeds from the `i`-th on
  unfoldable pub set_rows : (ℕ → ℕ) → Bool → ℕ → List ℕ → V → List T → Outcome (List T)
  set_rows hash cms i [] v filter = ok filter
  set_rows hash cms i (seed ∷ seeds) v filter = do
    filter' ← set_row (row cms i) (hash seed) v filter
    set_rows hash cms (suc i) seeds v filter'

  -- `set` of `BloomFilter` and of `MinBloomFilter`
  unfoldable pub set_key :
      (ℕ → ℕ → ℕ) → List ℕ → ℕ → V → BloomFilterBase T → Outcome (BloomFilterBase T)
  set_key rng input len v f = do
    filter' ← set_rows (hash_u rng input len f.filter_size) f.cms 0 f.seeds v f.filter_
    ok (record f { filter_ = filter' })

-- `INT_MAX`
abbrev pub int_max : ℕ
int_max = 2147483647

-- `lt` compares two values of the filter's `ValueType`.
module _ {T : Type 0} (cells : CellOps T ℕ) (lt : ℕ → ℕ → Bool) where
  -- The loop of `MinBloomFilter<T>::get`
  unfoldable pub min_rows : (ℕ → ℕ) → Bool → ℕ → List ℕ → List T → ℕ → Outcome ℕ
  min_rows hash cms i [] filter ret = ok ret
  min_rows hash cms i (seed ∷ seeds) filter ret = do
    current ← get_row cells (row cells cms i) (hash seed) filter
    min_rows hash cms (suc i) seeds filter (if lt current ret then current else ret)

  -- `MinBloomFilter<T>::get`
  unfoldable pub min_get : (ℕ → ℕ → ℕ) → List ℕ → ℕ → BloomFilterBase T → Outcome ℕ
  min_get rng input len f =
      min_rows (hash_u rng input len f.filter_size) f.cms 0 f.seeds f.filter_ int_max

-- The loop of `BloomFilter::get`
module _ {T : Type 0} (cells : CellOps T Bool) where
  unfoldable pub get_rows : (ℕ → ℕ) → Bool → ℕ → List ℕ → List T → Outcome Bool
  get_rows hash cms i [] filter = ok true
  get_rows hash cms i (seed ∷ seeds) filter = do
    found ← get_row cells (row cells cms i) (hash seed) filter
    let rest = get_rows hash cms (suc i) seeds filter
    if found then rest else ok false

  -- `BloomFilter::get`
  unfoldable pub get_key : (ℕ → ℕ → ℕ) → List ℕ → ℕ → BloomFilterBase T → Outcome Bool
  get_key rng input len f = get_rows (hash_u rng input len f.filter_size) f.cms 0 f.seeds f.filter_
