-- ===== src/Bloom/Marks.antt =====
-- What `set` leaves in the cells of a filter: marks that later calls keep.
use vermont.Base.{
  get_elem?-set, ℕ, zero, suc, ◌+◌, ◌<◌, ◌≤◌, ◌≡◌, refl, if◌then◌else◌, Bool, true, false, List, [],
  ◌∷◌, length, get_elem?, get_elem?-lt, set, length-set, some, ok, All, arith, subst, sym, ◌∙◌,
}
use mathlib.Core.Option.{some-injective}
use vermont.Bloom.{CellOps, set_row, set_rows}

-- An element after a write is the value written or an element of before.
pub set-cases {ℓ κ} :
    {A : Type ℓ} (P : ℕ → A → Type κ) (xs : List A) (i j : ℕ) (a v : A)
    → get_elem? xs j ≡ some a
    → P j a
    → (i ≡ j → P j v)
    → (b : A) × (get_elem? (set xs i v) j ≡ some b) × P j b
set-cases P [] i j a v e p f = absurd (ground arith)
set-cases P (x ∷ xs) zero zero a v e p f = (v, refl, f refl)
set-cases P (x ∷ xs) zero (suc j) a v e p f = (a, e, p)
set-cases P (x ∷ xs) (suc i) zero a v e p f = (a, e, p)
set-cases P (x ∷ xs) (suc i) (suc j) a v e p f =
    set-cases (λ k b. P (suc k) b) xs i j a v e p (λ h. f (omega arith))

pub All-get {ℓ κ} :
    {A : Type ℓ} (P : A → Type κ) (xs : List A) (i : ℕ) (a : A)
    → All P xs
    → get_elem? xs i ≡ some a
    → P a
All-get P [] i a h e = absurd (ground arith)
All-get P (x ∷ xs) zero a h e = subst P (some-injective _ _ e) h.0
All-get P (x ∷ xs) (suc i) a h e = All-get P xs i a h.1 e

pub All-set {ℓ κ} :
    {A : Type ℓ} (P : A → Type κ) (xs : List A) (i : ℕ) (v : A)
    → All P xs
    → P v
    → All P (set xs i v)
All-set P [] i v h p = tt
All-set P (x ∷ xs) zero v h p = (p, h.1)
All-set P (x ∷ xs) (suc i) v h p = (h.0, All-set P xs i v h.1 p)

row-lt :
    (cms : Bool) (i n len : ℕ) → (if cms then 1 else i + suc n) ≤ len → (if cms then 0 else i) < len
row-lt true i n len h = omega arith
row-lt false i n len h = omega arith

rows-le :
    (cms : Bool) (i n len len' : ℕ)
    → len' ≡ len
    → (if cms then 1 else i + suc n) ≤ len
    → (if cms then 1 else suc i + n) ≤ len'
rows-le true i n len len' e h = omega arith
rows-le false i n len len' e h = omega arith

-- What a kind of cells promises of `set` and `get`: `IsArray n` is an array of `n` cells, and the
-- values that count as marks are set, and kept by every later `set` of a mark.
pub record MarkLaws {T V : Type 0} (cells : CellOps T V) (IsMark : V → Type 0) : Type 1 where
  pub IsArray : ℕ → T → Type 0
  pub fresh : (n : ℕ) → IsArray n (cells.resize n)
  pub marks :
      (n k : ℕ) (v : V) (a : T)
      → IsArray n a
      → k < n
      → IsMark v
      → (a' : T) × (cells.set_cell k v a ≡ ok a')
        × IsArray n a'
        × ((w : V) × (cells.get_cell k a' ≡ ok w) × IsMark w)
        × ((j : ℕ)
            → (w : V) × (cells.get_cell j a ≡ ok w) × IsMark w
            → (w : V) × (cells.get_cell j a' ≡ ok w) × IsMark w)

module _ {T V : Type 0} (cells : CellOps T V) (IsMark : V → Type 0)
    (laws : MarkLaws cells IsMark) where
  -- Cell `k` of an array holds a mark.
  abbrev pub IsMarked : ℕ → T → Type 0
  IsMarked k a = (w : V) × (cells.get_cell k a ≡ ok w) × IsMark w

  -- Cell `k` of row `r` holds a mark.
  abbrev pub IsMarkedAt : ℕ → ℕ → List T → Type 0
  IsMarkedAt r k filter = (a : T) × (get_elem? filter r ≡ some a) × IsMarked k a

  -- The cells of the hash functions from the `i`-th on all hold marks.
  abbrev pub AreMarked : (ℕ → ℕ) → Bool → ℕ → List ℕ → List T → Type 0
  AreMarked hash cms i [] filter = Unit
  AreMarked hash cms i (seed ∷ seeds) filter =
      IsMarkedAt (if cms then 0 else i) (hash seed) filter × AreMarked hash cms (suc i) seeds filter

  -- No mark of one filter is missing in the other.
  abbrev pub Keeps : List T → List T → Type 0
  Keeps filter filter' = (r k : ℕ) → IsMarkedAt r k filter → IsMarkedAt r k filter'

  pub AreMarked-Keeps :
      (hash : ℕ → ℕ) (cms : Bool) (i : ℕ) (seeds : List ℕ) (filter filter' : List T)
      → Keeps filter filter'
      → AreMarked hash cms i seeds filter
      → AreMarked hash cms i seeds filter'
  AreMarked-Keeps hash cms i [] filter filter' keep m = tt
  AreMarked-Keeps hash cms i (seed ∷ seeds) filter filter' keep m = (
    keep (if cms then 0 else i) (hash seed) m.0,
    AreMarked-Keeps hash cms (suc i) seeds filter filter' keep m.1,
  )

  -- A `set` of one row
  set_row-Keeps :
      (n r k : ℕ) (v : V) (filter : List T)
      → All (laws.IsArray n) filter
      → r < length filter
      → k < n
      → IsMark v
      → (filter' : List T) × (set_row cells r k v filter ≡ ok filter')
        × All (laws.IsArray n) filter'
        × (length filter' ≡ length filter)
        × IsMarkedAt r k filter'
        × Keeps filter filter'
  unfolding set_row
  set_row-Keeps n r k v filter valid inside within mark =
      let (a, at) = get_elem?-lt filter r inside in
      let (a', done, valid', marked, kept) =
        laws.marks n k v a (All-get (laws.IsArray n) filter r a valid at) within mark in
      (
        set filter r a',
        rw (at, done) refl,
        All-set (laws.IsArray n) filter r a' valid valid',
        length-set filter r a',
        (a', get_elem?-set filter r a' inside, marked),
        λ q j m.
            set-cases (λ i b. IsMarked j b) filter r q m.0 a' m.1 m.2
              (λ h.
                kept j (subst (IsMarked j) (some-injective _ _ (sym m.1 ∙ (rw (sym h) at))) m.2)),
      )

  -- The loop of `set` marks the cells of all its hash functions.
  pub set_rows-AreMarked :
      (hash : ℕ → ℕ) (n : ℕ) (cms : Bool) (i : ℕ) (seeds : List ℕ) (v : V) (filter : List T)
      → ((seed : ℕ) → hash seed < n)
      → All (laws.IsArray n) filter
      → (if cms then 1 else i + length seeds) ≤ length filter
      → IsMark v
      → (filter' : List T) × (set_rows cells hash cms i seeds v filter ≡ ok filter')
        × All (laws.IsArray n) filter'
        × (length filter' ≡ length filter)
        × AreMarked hash cms i seeds filter'
        × Keeps filter filter'
  unfolding set_rows
  set_rows-AreMarked hash n cms i [] v filter within valid rows mark =
      (filter, refl, valid, refl, tt, λ r k m. m)
  set_rows-AreMarked hash n cms i (seed ∷ seeds) v filter within valid rows mark =
      let (f1, e1, valid1, len1, m1, keep1) =
        set_row-Keeps n (if cms then 0 else i) (hash seed) v filter valid
          (row-lt cms i (length seeds) (length filter) rows) (within seed) mark in
      let (f2, e2, valid2, len2, m2, keep2) =
        set_rows-AreMarked hash n cms (suc i) seeds v f1 within valid1
          (rows-le cms i (length seeds) (length filter) (length f1) len1 rows) mark in
      (
        f2,
        rw (e1, e2) refl,
        valid2,
        len2 ∙ len1,
        (keep2 (if cms then 0 else i) (hash seed) m1, m2),
        λ r k m. keep2 r k (keep1 r k m),
      )
