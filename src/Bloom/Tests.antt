-- ===== src/Bloom/Tests.antt =====
-- Tests of the Bloom filters and of their keys, and the theorems at concrete inputs.
use vermont.Base.{
  ℕ, ◌+◌, ◌*◌, ◌≡◌, ◌≤◌, refl, true, false, List, [], ◌∷◌, ◌++◌, take, length, ok, ◌>>=◌, ltb,
  arith,
}
use vermont.Bloom.{
  new_filter, set_key, get_key, min_get, hash_u, hash_sum, set_row, get_row, set_rows, get_rows,
  min_rows,
}
use vermont.Bloom.Cells.{
  bitmap_ops, age_ops, set_bit, get_bit, resize_bitmap, write_at, get_number, set_count,
  resize_array, count_ops, int_lt,
}
use vermont.Bloom.NoMiss.{set_keys, get_key-set_key, min_get-set_key}
use vermont.Bloom.Key.{GenericKey, append, quintuple}
use vermont.Bloom.Key.Contents.{contents, contents-append, quintuple_reverse, quintuple_same_ip}

-- Numbers that stand for those of a random generator
abbrev some_rng : ℕ → ℕ → ℕ
some_rng seed i = seed * 7 + i * 13 + 1

abbrev key_a : List ℕ
key_a = 10 ∷ 0 ∷ 0 ∷ 1 ∷ []

abbrev key_b : List ℕ
key_b = 10 ∷ 0 ∷ 0 ∷ 2 ∷ []

abbrev seeds : List ℕ
seeds = 3 ∷ 8 ∷ 21 ∷ []

get_key-set_key_example :
    (do
      f1 ← set_keys bitmap_ops some_rng ((key_b, true) ∷ []) (new_filter bitmap_ops seeds 20 false)
      f2 ← set_key bitmap_ops some_rng key_a (length key_a) true f1
      f3 ← set_keys bitmap_ops some_rng ((key_b, true) ∷ []) f2
      get_key bitmap_ops some_rng key_a (length key_a) f3)
    ≡ ok true
get_key-set_key_example =
    get_key-set_key some_rng seeds 20 false ((key_b, true) ∷ []) ((key_b, true) ∷ []) key_a
      (omega arith) (refl, tt) (refl, tt)

min_get-set_key_example :
    (w : ℕ) × ((do
      f1 ← set_keys age_ops some_rng ((key_b, 170) ∷ []) (new_filter age_ops seeds 20 true)
      f2 ← set_key age_ops some_rng key_a (length key_a) 150 f1
      f3 ← set_keys age_ops some_rng ((key_b, 160) ∷ []) f2
      min_get age_ops ltb some_rng key_a (length key_a) f3)
      ≡ ok w)
    × (150 ≤ w)
min_get-set_key_example =
    min_get-set_key some_rng seeds 20 true 150 ((key_b, 170) ∷ []) ((key_b, 160) ∷ []) key_a
      (omega arith) (omega arith) (omega arith, tt) (omega arith, tt)

-- A key that was not set is not found in the same filter.
other_key_not_found :
    (do
      f ← set_key bitmap_ops some_rng key_a 4 true (new_filter bitmap_ops seeds 200 false)
      get_key bitmap_ops some_rng key_b 4 f)
    ≡ ok false
unfolding set_key get_key set_rows get_rows set_row get_row new_filter hash_u hash_sum set_bit
    get_bit resize_bitmap write_at
other_key_not_found = refl

-- The counts of a key add up, and the least of its counters is returned.
counts_add_up :
    (do
      f ← set_key count_ops some_rng key_a 4 5 (new_filter count_ops seeds 200 false)
      g ← set_key count_ops some_rng key_a 4 4294967294 f
      min_get count_ops int_lt some_rng key_a 4 g)
    ≡ ok 3
unfolding set_key min_get set_rows min_rows set_row get_row new_filter hash_u hash_sum set_count
    get_number resize_array write_at int_lt
counts_add_up = refl

abbrev short_key : GenericKey
short_key = record { len = 2; data_ = 1 ∷ 2 ∷ 0 ∷ 0 ∷ [] }

contents-append_example :
    (k : GenericKey) × (append (7 ∷ 8 ∷ 9 ∷ []) 3 short_key ≡ ok k)
    × (contents k ≡ take 4 (contents short_key ++ 7 ∷ 8 ∷ 9 ∷ []))
    × (k.len ≤ length k.data_)
    × (length k.data_ ≡ 4)
contents-append_example =
    contents-append (7 ∷ 8 ∷ 9 ∷ []) 3 short_key (omega arith) (omega arith) (omega arith)

quintuple_reverse_example :
    quintuple 167772161 167772162 443 50000 ≡ quintuple 167772162 167772161 50000 443
quintuple_reverse_example = quintuple_reverse 167772161 167772162 443 50000

quintuple_same_ip_example :
    quintuple 2130706433 2130706433 80 5000 ≡ quintuple 2130706433 2130706433 80 6000
quintuple_same_ip_example = quintuple_same_ip 2130706433 80 5000 6000 (omega arith) (omega arith)
