-- ===== src/Base/Lists.antt =====
-- Lists measured and indexed by native numbers, and Boolean filters.
use Prim.Native.Nat.{ℕ, zero, suc, ◌+◌, ◌<◌}
use mathlib.Core.Path.{sym, ◌∙◌, ◌≡◌, refl, ap}
use mathlib.Core.Bool.{Bool, true, false, ◌&&◌}
use mathlib.Core.List.{List, [], ◌∷◌, ◌++◌}
use mathlib.Core.Option.{Option, none, some, some-injective}
use native.Mathlib.Omega.{arith}
use mathlib.Core.Logic.{◌⊎◌, ◌≢◌, inl, inr}
use vermont.Base.Tests.{◌==◌, if◌then◌else◌, Bool-cases}

module _ {ℓ} {A : Type ℓ} where
  abbrev pub length : List A → ℕ
  length [] = 0
  length (x ∷ xs) = suc (length xs)

  abbrev pub get_elem? : List A → ℕ → Option A
  get_elem? [] i = none
  get_elem? (x ∷ xs) zero = some x
  get_elem? (x ∷ xs) (suc i) = get_elem? xs i

  -- A write out of bounds changes nothing.
  abbrev pub set : List A → ℕ → A → List A
  set [] i v = []
  set (x ∷ xs) zero v = v ∷ xs
  set (x ∷ xs) (suc i) v = x ∷ set xs i v

  abbrev pub take : ℕ → List A → List A
  take zero xs = []
  take (suc n) [] = []
  take (suc n) (x ∷ xs) = x ∷ take n xs

  abbrev pub replicate : ℕ → A → List A
  replicate zero a = []
  replicate (suc n) a = a ∷ replicate n a

  pub length-append : (xs ys : List A) → length (xs ++ ys) ≡ length xs + length ys
  length-append [] ys = omega arith
  length-append (x ∷ xs) ys = omega (arith, length-append xs ys)

  pub length-set : (xs : List A) (i : ℕ) (v : A) → length (set xs i v) ≡ length xs
  length-set [] i v = refl
  length-set (x ∷ xs) zero v = refl
  length-set (x ∷ xs) (suc i) v = ap suc (length-set xs i v)

  pub length-replicate : (n : ℕ) (a : A) → length (replicate n a) ≡ n
  length-replicate zero a = refl
  length-replicate (suc n) a = ap suc (length-replicate n a)

  -- A read within bounds succeeds.
  pub get_elem?-lt : (xs : List A) (i : ℕ) → i < length xs → (a : A) × (get_elem? xs i ≡ some a)
  get_elem?-lt [] i h = absurd (omega arith)
  get_elem?-lt (x ∷ xs) zero h = (x, refl)
  get_elem?-lt (x ∷ xs) (suc i) h = get_elem?-lt xs i (omega arith)

  -- A write changes the element of its index only.
  pub get_elem?-set :
      (xs : List A) (i : ℕ) (v : A) → i < length xs → get_elem? (set xs i v) i ≡ some v
  get_elem?-set [] i v h = absurd (omega arith)
  get_elem?-set (x ∷ xs) zero v h = refl
  get_elem?-set (x ∷ xs) (suc i) v h = get_elem?-set xs i v (omega arith)

  pub get_elem?-set_ne :
      (xs : List A) (i j : ℕ) (v : A) → i ≢ j → get_elem? (set xs i v) j ≡ get_elem? xs j
  get_elem?-set_ne [] i j v h = refl
  get_elem?-set_ne (x ∷ xs) zero zero v h = absurd (h refl)
  get_elem?-set_ne (x ∷ xs) zero (suc j) v h = refl
  get_elem?-set_ne (x ∷ xs) (suc i) zero v h = refl
  get_elem?-set_ne (x ∷ xs) (suc i) (suc j) v h = get_elem?-set_ne xs i j v (λ e. h (ap suc e))

  -- An index of an element is in bounds.
  pub get_elem?-some : (xs : List A) (i : ℕ) (a : A) → get_elem? xs i ≡ some a → i < length xs
  get_elem?-some [] i a h = absurd (ground arith)
  get_elem?-some (x ∷ xs) zero a h = omega arith
  get_elem?-some (x ∷ xs) (suc i) a h = omega (arith, get_elem?-some xs i a h)

  pub get_elem?_unique :
      (xs : List A) (i : ℕ) (a b : A) → get_elem? xs i ≡ some a → get_elem? xs i ≡ some b → a ≡ b
  get_elem?_unique [] i a b h k = absurd (ground arith)
  get_elem?_unique (x ∷ xs) zero a b h k = some-injective a b (sym h ∙ k)
  get_elem?_unique (x ∷ xs) (suc i) a b h k = get_elem?_unique xs i a b h k

  pub get_elem?-append :
      (xs ys : List A) (i : ℕ) (a : A) → get_elem? xs i ≡ some a → get_elem? (xs ++ ys) i ≡ some a
  get_elem?-append [] ys i a h = absurd (ground arith)
  get_elem?-append (x ∷ xs) ys zero a h = h
  get_elem?-append (x ∷ xs) ys (suc i) a h = get_elem?-append xs ys i a h

  pub get_elem?-append_last : (xs : List A) (a : A) → get_elem? (xs ++ a ∷ []) (length xs) ≡ some a
  get_elem?-append_last [] a = refl
  get_elem?-append_last (x ∷ xs) a = get_elem?-append_last xs a

  -- An element behind a new last one is an old one, or the new one.
  pub get_elem?-append_cases :
      (xs : List A) (a : A) (i : ℕ) (c : A)
      → get_elem? (xs ++ a ∷ []) i ≡ some c
      → (get_elem? xs i ≡ some c) ⊎ ((i ≡ length xs) × (a ≡ c))
  get_elem?-append_cases [] a zero c h = inr (refl, some-injective a c h)
  get_elem?-append_cases [] a (suc i) c h = absurd (ground (arith, h))
  get_elem?-append_cases (x ∷ xs) a zero c h = inl h
  get_elem?-append_cases (x ∷ xs) a (suc i) c h = elim (get_elem?-append_cases xs a i c h) [
    | inl e ↦ inl e
    | inr e ↦ inr (ap suc e.0, e.1)
  ]

  -- Every element satisfies the predicate.
  abbrev pub All {κ} : (A → Type κ) → List A → Type κ
  All P [] = Unit
  All P (x ∷ xs) = P x × All P xs

module _ {ℓ κ μ} {A : Type ℓ} (P : A → Type κ) (Q : A → Type μ) where
  pub All-map : ((a : A) → P a → Q a) → (xs : List A) → All P xs → All Q xs
  All-map f [] h = tt
  All-map f (x ∷ xs) h = (f x h.0, All-map f xs h.1)

  pub All-zip {ν} :
      (R : A → Type ν)
      → ((a : A) → P a → Q a → R a)
      → (xs : List A) → All P xs
      → All Q xs
      → All R xs
  All-zip R f [] h k = tt
  All-zip R f (x ∷ xs) h k = (f x h.0 k.0, All-zip R f xs h.1 k.1)

pub All-append {ℓ κ} :
    {A : Type ℓ} (P : A → Type κ) (xs ys : List A) → All P xs → All P ys → All P (xs ++ ys)
All-append P [] ys h k = k
All-append P (x ∷ xs) ys h k = (h.0, All-append P xs ys h.1 k)

-- The elements that pass a test, in their order.
module _ {ℓ} {A : Type ℓ} (p : A → Bool) where
  abbrev pub keep_if : List A → List A
  keep_if [] = []
  keep_if (x ∷ xs) = if p x then x ∷ keep_if xs else keep_if xs

  pub keep_if-All : (xs : List A) → All (λ x. p x ≡ true) (keep_if xs)
  keep_if-All [] = tt
  keep_if-All (x ∷ xs) = elim (Bool-cases (p x)) [
    | inl e ↦ rw e (e, keep_if-All xs)
    | inr e ↦ rw e (keep_if-All xs)
  ]

  -- What holds of all elements holds of those that are kept.
  pub All-keep_if {κ} : (P : A → Type κ) (xs : List A) → All P xs → All P (keep_if xs)
  All-keep_if P [] h = tt
  All-keep_if P (x ∷ xs) h = elim (Bool-cases (p x)) [
    | inl e ↦ rw e (h.0, All-keep_if P xs h.1)
    | inr e ↦ rw e (All-keep_if P xs h.1)
  ]

-- `memcmp(a, b, n) == 0` on the bytes of two buffers.
abbrev pub bytes_eq : List ℕ → List ℕ → Bool
bytes_eq [] [] = true
bytes_eq [] (y ∷ ys) = false
bytes_eq (x ∷ xs) [] = false
bytes_eq (x ∷ xs) (y ∷ ys) = (x == y) && bytes_eq xs ys

pub bytes_eq_refl : (xs : List ℕ) → bytes_eq xs xs ≡ true
bytes_eq_refl [] = refl
bytes_eq_refl (x ∷ xs) = ground (arith, bytes_eq_refl xs)

pub bytes_eq_sym : (xs ys : List ℕ) → bytes_eq xs ys ≡ bytes_eq ys xs
bytes_eq_sym [] [] = refl
bytes_eq_sym [] (y ∷ ys) = refl
bytes_eq_sym (x ∷ xs) [] = refl
bytes_eq_sym (x ∷ xs) (y ∷ ys) = ground (arith, bytes_eq_sym xs ys)
