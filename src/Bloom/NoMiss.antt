-- ===== src/Bloom/NoMiss.antt =====
-- A Bloom filter never misses a key that was set: `set` and `get` of `BloomFilter` and of
-- `AgeBloomFilter`, after any number of later `set`s.
use vermont.Base.{
  ℕ, suc, ◌+◌, ◌%◌, ◌^◌, ◌<◌, ◌≤◌, ◌≡◌, refl, if◌then◌else◌, Bool, true, List, [], ◌∷◌, length,
  take, length-replicate, Outcome, ok, ◌>>=◌, All, ltb, arith,
}
use native.Mathlib.Nat.{mod-lt}
use vermont.Bloom.{
  CellOps, BloomFilterBase, hash_sum, hash_u, new_filter, get_row, set_key, get_rows, get_key,
  min_rows, min_get, int_max,
}
use vermont.Bloom.Cells.{Bitmap, NumberArray, bitmap_ops, age_ops}
use vermont.Bloom.Laws.{bitmap_laws, age_laws, All-replicate}
use vermont.Bloom.Marks.{MarkLaws, AreMarked, AreMarked-Keeps, IsMarkedAt, set_rows-AreMarked}

pub hash_u-lt :
    (rng : ℕ → ℕ → ℕ) (input : List ℕ) (len max seed : ℕ)
    → 0 < max
    → hash_u rng input len max seed < max
unfolding hash_u
hash_u-lt rng input len max seed h = mod-lt (hash_sum (rng seed) 0 (take (len % 2 ^ 16) input) 0) h

-- `set` for each key and value of a list, in its order
unfoldable pub set_keys :
    {T V : Type 0}
    → CellOps T V
    → (ℕ → ℕ → ℕ)
    → List (List ℕ × V)
    → BloomFilterBase T
    → Outcome (BloomFilterBase T)
set_keys cells rng [] f = ok f
set_keys cells rng (kv ∷ kvs) f = do
  f' ← set_key cells rng kv.0 (length kv.0) kv.1 f
  set_keys cells rng kvs f'

module _ {T V : Type 0} (cells : CellOps T V) (IsMark : V → Type 0) (laws : MarkLaws cells IsMark)
    (rng : ℕ → ℕ → ℕ) where
  -- A filter has its rows, and each row its cells.
  pub record IsFilter (f : BloomFilterBase T) : Type 0 where
    pub rows : (if f.cms then 1 else 0 + length f.seeds) ≤ length f.filter_
    pub arrays : All (laws.IsArray f.filter_size) f.filter_
    pub nonempty : 0 < f.filter_size

  -- The cells of a key hold marks.
  abbrev pub HasKey : List ℕ → ℕ → BloomFilterBase T → Type 0
  HasKey input len f =
      AreMarked cells IsMark laws (hash_u rng input len f.filter_size) f.cms 0 f.seeds f.filter_

  new_filter-IsFilter :
      (hash_params : List ℕ) (filter_size : ℕ) (cms : Bool)
      → 0 < filter_size
      → IsFilter (new_filter cells hash_params filter_size cms)
  unfolding new_filter
  new_filter-IsFilter hash_params filter_size cms h = record {
    rows = ground (
      arith,
      length-replicate (if cms then 1 else length hash_params) (cells.resize filter_size),
    );
    arrays =
        All-replicate (laws.IsArray filter_size) (if cms then 1 else length hash_params)
          (cells.resize filter_size) (laws.fresh filter_size);
    nonempty = h;
  }

  set_key-HasKey :
      (input : List ℕ) (len : ℕ) (v : V) (f : BloomFilterBase T)
      → IsFilter f
      → IsMark v
      → (f' : BloomFilterBase T) × (set_key cells rng input len v f ≡ ok f')
        × IsFilter f'
        × HasKey input len f'
        × ((other : List ℕ) (n : ℕ) → HasKey other n f → HasKey other n f')
  unfolding set_key
  set_key-HasKey input len v f valid mark =
      let (filter', done, arrays', len', marked, keep) =
        set_rows-AreMarked cells IsMark laws (hash_u rng input len f.filter_size) f.filter_size
          f.cms 0 f.seeds v f.filter_
          (λ seed. hash_u-lt rng input len f.filter_size seed valid.nonempty) valid.arrays
          valid.rows mark in
      (
        record f { filter_ = filter' },
        rw done refl,
        record { rows = rw len' valid.rows; arrays = arrays'; nonempty = valid.nonempty },
        marked,
        λ other n m.
            AreMarked-Keeps cells IsMark laws (hash_u rng other n f.filter_size) f.cms 0 f.seeds
              f.filter_ filter' keep m,
      )

  set_keys-HasKey :
      (kvs : List (List ℕ × V)) (f : BloomFilterBase T)
      → IsFilter f
      → All (λ kv. IsMark kv.1) kvs
      → (f' : BloomFilterBase T) × (set_keys cells rng kvs f ≡ ok f')
        × IsFilter f'
        × ((other : List ℕ) (n : ℕ) → HasKey other n f → HasKey other n f')
  unfolding set_keys
  set_keys-HasKey [] f valid marks = (f, refl, valid, λ other n m. m)
  set_keys-HasKey (kv ∷ kvs) f valid marks =
      let (f1, e1, valid1, _, keep1) = set_key-HasKey kv.0 (length kv.0) kv.1 f valid marks.0 in
      let (f2, e2, valid2, keep2) = set_keys-HasKey kvs f1 valid1 marks.1 in
      (f2, rw (e1, e2) refl, valid2, λ other n m. keep2 other n (keep1 other n m))

  -- The filter that is built, filled with `before`, the key and `after`
  pub set_keys-finds :
      (hash_params : List ℕ) (filter_size : ℕ) (cms : Bool) (before after : List (List ℕ × V))
      (input : List ℕ) (v : V)
      → 0 < filter_size
      → All (λ kv. IsMark kv.1) before
      → IsMark v
      → All (λ kv. IsMark kv.1) after
      → (f1 f2 f3 : BloomFilterBase T) × (set_keys cells rng before
            (new_filter cells hash_params filter_size cms)
          ≡ ok f1)
        × (set_key cells rng input (length input) v f1 ≡ ok f2)
        × (set_keys cells rng after f2 ≡ ok f3)
        × HasKey input (length input) f3
  set_keys-finds hash_params filter_size cms before after input v h b m a =
      let (f1, e1, valid1, _) =
        set_keys-HasKey before (new_filter cells hash_params filter_size cms)
          (new_filter-IsFilter hash_params filter_size cms h) b in
      let (f2, e2, valid2, has, _) = set_key-HasKey input (length input) v f1 valid1 m in
      let (f3, e3, valid3, keep) = set_keys-HasKey after f2 valid2 a in
      (f1, f2, f3, e1, e2, e3, keep input (length input) has)

get_row-marked :
    {T V : Type 0} (cells : CellOps T V) (IsMark : V → Type 0) (laws : MarkLaws cells IsMark)
    (r k : ℕ) (filter : List T)
    → IsMarkedAt cells IsMark laws r k filter
    → (w : V) × (get_row cells r k filter ≡ ok w) × IsMark w
unfolding get_row
get_row-marked cells IsMark laws r k filter (a, at, (w, found, mark)) = (w, rw at found, mark)

get_rows-marked :
    (hash : ℕ → ℕ) (cms : Bool) (i : ℕ) (seeds : List ℕ) (filter : List Bitmap)
    → AreMarked bitmap_ops _ bitmap_laws hash cms i seeds filter
    → get_rows bitmap_ops hash cms i seeds filter ≡ ok true
unfolding get_rows
get_rows-marked hash cms i [] filter m = refl
get_rows-marked hash cms i (seed ∷ seeds) filter m =
    let (w, found, mark) =
      get_row-marked bitmap_ops _ bitmap_laws (if cms then 0 else i) (hash seed) filter m.0 in
    rw (found, mark) (get_rows-marked hash cms (suc i) seeds filter m.1)

min_rows-marked :
    (t : ℕ) (hash : ℕ → ℕ) (cms : Bool) (i : ℕ) (seeds : List ℕ) (filter : List NumberArray)
    (ret : ℕ)
    → AreMarked age_ops _ (age_laws t) hash cms i seeds filter
    → t ≤ ret
    → (w : ℕ) × (min_rows age_ops ltb hash cms i seeds filter ret ≡ ok w) × (t ≤ w)
unfolding min_rows
min_rows-marked t hash cms i [] filter ret m h = (ret, refl, h)
min_rows-marked t hash cms i (seed ∷ seeds) filter ret m h =
    let (w, found, mark) =
      get_row-marked age_ops _ (age_laws t) (if cms then 0 else i) (hash seed) filter m.0 in
    let (r, done, late) =
      min_rows-marked t hash cms (suc i) seeds filter (if ltb w ret then w else ret) m.1
        (ground arith) in
    (r, rw found done, late)

-- A BloomFilter of at least one bit never misses a key that was set, whatever keys were set before
-- and after it: set and get stay within the memory of the filter, and get answers true.
pub get_key-set_key :
    (rng : ℕ → ℕ → ℕ) (hash_params : List ℕ) (filter_size : ℕ) (cms : Bool)
    (before after : List (List ℕ × Bool)) (input : List ℕ)
    → 0 < filter_size
    → All (λ kv. kv.1 ≡ true) before
    → All (λ kv. kv.1 ≡ true) after
    → (do
      f1 ← set_keys bitmap_ops rng before (new_filter bitmap_ops hash_params filter_size cms)
      f2 ← set_key bitmap_ops rng input (length input) true f1
      f3 ← set_keys bitmap_ops rng after f2
      get_key bitmap_ops rng input (length input) f3)
      ≡ ok true
unfolding get_key
get_key-set_key rng hash_params filter_size cms before after input h b a =
    let (f1, f2, f3, e1, e2, e3, has) =
      set_keys-finds bitmap_ops (λ v. v ≡ true) bitmap_laws rng hash_params filter_size cms before
        after input true h b refl a in
    rw (e1, e2, e3)
      (get_rows-marked (hash_u rng input (length input) f3.filter_size) f3.cms 0 f3.seeds f3.filter_
        has)

-- In an AgeBloomFilter with at least one cell, a key set at a time up to INT_MAX is answered with
-- that time or a later one, if all keys set before and after it have that time or a later one.
pub min_get-set_key :
    (rng : ℕ → ℕ → ℕ) (hash_params : List ℕ) (filter_size : ℕ) (cms : Bool) (t : ℕ)
    (before after : List (List ℕ × ℕ)) (input : List ℕ)
    → 0 < filter_size
    → t ≤ int_max
    → All (λ kv. t ≤ kv.1) before
    → All (λ kv. t ≤ kv.1) after
    → (w : ℕ) × ((do
      f1 ← set_keys age_ops rng before (new_filter age_ops hash_params filter_size cms)
      f2 ← set_key age_ops rng input (length input) t f1
      f3 ← set_keys age_ops rng after f2
      min_get age_ops ltb rng input (length input) f3)
        ≡ ok w)
      × (t ≤ w)
unfolding min_get
min_get-set_key rng hash_params filter_size cms t before after input h m b a =
    let (f1, f2, f3, e1, e2, e3, has) =
      set_keys-finds age_ops (λ v. t ≤ v) (age_laws t) rng hash_params filter_size cms before after
        input t h b (omega arith) a in
    let (w, done, late) =
      min_rows-marked t (hash_u rng input (length input) f3.filter_size) f3.cms 0 f3.seeds
        f3.filter_ int_max has m in
    (w, rw (e1, e2, e3) done, late)
