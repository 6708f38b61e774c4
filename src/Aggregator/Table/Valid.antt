-- ===== src/Aggregator/Table/Valid.antt =====
-- What holds of the hash table of flows between two calls, and what its lists of addresses hold.
use vermont.Base.{
  subst, ℕ, ◌<◌, ◌==◌, ◌≡◌, ◌≢◌, refl, ◌∙◌, inl, inr, ◌||◌, Bool, true, false, List, [], ◌∷◌, ◌++◌,
  length, get_elem?, Option, some, All, Bool-cases, arith,
}
use vermont.Aggregator.Table.{Bucket, unlink}

-- The list has an address.
abbrev pub has : ℕ → List ℕ → Bool
has id [] = false
has id (k ∷ ks) = (k == id) || has id ks

-- No address is in the list twice.
abbrev pub Distinct : List ℕ → Type 0
Distinct [] = Unit
Distinct (k ∷ ks) = (has k ks ≡ false) × Distinct ks

-- A bucket of the chain of the slot `k`
abbrev pub InChain : List (Option Bucket) → List ℕ → ℕ → ℕ → Type 0
InChain store list k id =
    (b : Bucket) × (get_elem? store id ≡ some (some b))
    × (b.in_table ≡ true)
    × (b.hash ≡ k)
    × (has id list ≡ true)

-- A bucket of the list of exports, with a flow that satisfies the predicate
abbrev pub IsListed : (List ℕ → Type 0) → ℕ → List (Option Bucket) → ℕ → Type 0
IsListed P size store id =
    (b : Bucket) × (get_elem? store id ≡ some (some b)) × (b.hash < size) × P b.flow

-- The chains hold the buckets that are in the table, each in the slot of its hash, and those are on the
-- list, which has every bucket once. Every bucket of the list is allocated, and a bucket that is marked
-- as in the table is in the chain of its hash.
pub record IsTable (P : List ℕ → Type 0) (size : ℕ) (store : List (Option Bucket))
    (buckets : List (List ℕ)) (list : List ℕ) : Type 0 where
  pub chained :
      (k : ℕ) (chain : List ℕ) → get_elem? buckets k ≡ some chain → All (InChain store list k) chain
  pub linked :
      (j : ℕ) (b : Bucket) (chain : List ℕ)
      → get_elem? store j ≡ some (some b)
      → b.in_table ≡ true
      → get_elem? buckets b.hash ≡ some chain
      → has j chain ≡ true
  pub listed : All (IsListed P size store) list
  pub distinct : Distinct list
  pub slots : length buckets ≡ size
  pub some_slot : 0 < size

pub unlink-All {κ} :
    (P : ℕ → Type κ) (id : ℕ) (ks : List ℕ) → All P ks → All (λ j. P j × (j ≢ id)) (unlink id ks)
unfolding unlink
unlink-All P id [] h = tt
unlink-All P id (k ∷ ks) h = elim (Bool-cases (k == id)) [
  | inl e ↦ rw e (unlink-All P id ks h.1)
  | inr e ↦ rw e ((h.0, λ q. absurd (ground (arith, e, q))), unlink-All P id ks h.1)
]

pub has-unlink : (j id : ℕ) (ks : List ℕ) → j ≢ id → has j (unlink id ks) ≡ has j ks
unfolding unlink
has-unlink j id [] h = refl
has-unlink j id (k ∷ ks) h =
    let rest = has-unlink j id ks h in
    elim (Bool-cases (k == id)) [ inl e ↦ ground (arith, e, rest, h) | inr e ↦ rw (e, rest) refl ]

pub has-unlink_self : (id : ℕ) (ks : List ℕ) → has id (unlink id ks) ≡ false
unfolding unlink
has-unlink_self id [] = refl
has-unlink_self id (k ∷ ks) =
    let rest = has-unlink_self id ks in
    elim (Bool-cases (k == id)) [ inl e ↦ rw (e, rest) refl | inr e ↦ rw (e, e, rest) refl ]

pub has-append : (j : ℕ) (ks ls : List ℕ) → has j (ks ++ ls) ≡ (has j ks || has j ls)
has-append j [] ls = refl
has-append j (k ∷ ks) ls =
    let rest = has-append j ks ls in
    elim (Bool-cases (k == j)) [ inl e ↦ rw e refl | inr e ↦ rw (e, rest) refl ]

pub has-All {κ} : (P : ℕ → Type κ) (j : ℕ) (ks : List ℕ) → All P ks → has j ks ≡ true → P j
has-All P j [] h m = absurd (ground arith)
has-All P j (k ∷ ks) h m = elim (Bool-cases (k == j)) [
  | inl e ↦ let same : k ≡ j = ground (arith, e) in subst P same h.0
  | inr e ↦ has-All P j ks h.1 (rw e at m)
]

-- All of the list is what holds of each of its addresses.
pub All-has {κ} : (P : ℕ → Type κ) (ks : List ℕ) → ((j : ℕ) → has j ks ≡ true → P j) → All P ks
All-has P [] f = tt
All-has P (k ∷ ks) f = (f k (ground arith), All-has P ks (λ j m. f j (ground (arith, m))))

pub Distinct-unlink : (id : ℕ) (ks : List ℕ) → Distinct ks → Distinct (unlink id ks)
unfolding unlink
Distinct-unlink id [] h = tt
Distinct-unlink id (k ∷ ks) h = elim (Bool-cases (k == id)) [
  | inl e ↦ rw e (Distinct-unlink id ks h.1)
  | inr e ↦
      rw e
        (has-unlink k id ks (λ q. absurd (ground (arith, e, q))) ∙ h.0, Distinct-unlink id ks h.1)
]

-- A new last address
pub Distinct-append :
    (id : ℕ) (ks : List ℕ) → has id ks ≡ false → Distinct ks → Distinct (ks ++ id ∷ [])
Distinct-append id [] h d = (refl, tt)
Distinct-append id (k ∷ ks) h d = (
  has-append k ks (id ∷ []) ∙ ground (arith, d.0, h),
  Distinct-append id ks (ground (arith, h)) d.1,
)
