-- ===== src/Aggregator/Number/Memory.antt =====
-- What a number is after it is written, and what a write leaves alone.
use native.Mathlib.Nat.{pow-suc, mul-le-mul_right}
use vermont.Base.{
  get_elem?-set, get_elem?-set_ne, ℕ, zero, suc, ◌+◌, ◌*◌, ◌/◌, ◌%◌, ◌^◌, ◌≤◌, ◌<◌, ◌≡◌, ◌≢◌, ◌⊎◌,
  inl, inr, refl, sym, ap, subst, ◌∙◌, List, [], ◌∷◌, ◌++◌, length, length-append, length-set, set,
  All, All-append, ok, or_fault, arith,
}
use vermont.Aggregator.Number.{read_at, be_value, be_bytes, read_number, write_number}
use vermont.Bloom.Key.{write_bytes}
use vermont.Bloom.Laws.{write_at-lt}
use vermont.Bloom.Marks.{All-set}
use vermont.Parser.Bytes.{read_u8, read_u8_within}

pub length-be_bytes : (n v : ℕ) → length (be_bytes n v) ≡ n
unfolding be_bytes
length-be_bytes zero v = refl
length-be_bytes (suc n) v =
    omega
      (arith, length-append (be_bytes n (v / 256)) ((v % 256) ∷ []), length-be_bytes n (v / 256))

be_value-append :
    (acc b : ℕ) (bs : List ℕ) → be_value acc (bs ++ b ∷ []) ≡ be_value acc bs * 256 + b
unfolding be_value
be_value-append acc b [] = refl
be_value-append acc b (c ∷ bs) = be_value-append (acc * 256 + c) b bs

-- The bytes of a number have its value, if they are enough.
pub be_value-be_bytes : (n v : ℕ) → v < 256 ^ n → be_value 0 (be_bytes n v) ≡ v
unfolding be_bytes be_value
be_value-be_bytes zero v h = omega arith
be_value-be_bytes (suc n) v h =
    be_value-append 0 (v % 256) (be_bytes n (v / 256))
    ∙ omega (arith, be_value-be_bytes n (v / 256) (omega (arith, pow-suc 256 n)))

-- Every element is a byte.
abbrev pub IsBytes : List ℕ → Type 0
IsBytes = All (λ b. b < 256)

be_bytes-IsBytes : (n v : ℕ) → IsBytes (be_bytes n v)
unfolding be_bytes
be_bytes-IsBytes zero v = tt
be_bytes-IsBytes (suc n) v =
    All-append _ (be_bytes n (v / 256)) ((v % 256) ∷ []) (be_bytes-IsBytes n (v / 256))
      (omega arith, tt)

be_value-lt : (acc : ℕ) (bs : List ℕ) → IsBytes bs → be_value acc bs < (acc + 1) * 256 ^ length bs
unfolding be_value
be_value-lt acc [] h = omega arith
be_value-lt acc (b ∷ bs) (h, k) =
    let step = be_value-lt (acc * 256 + b) bs k in
    let grow : (acc * 256 + b + 1) * 256 ^ length bs ≤ ((acc + 1) * 256) * 256 ^ length bs =
      mul-le-mul_right (256 ^ length bs) (omega arith) in
    let goal : be_value (acc * 256 + b) bs < (acc + 1) * (256 ^ length bs * 256) = grind arith in
    subst (λ t. be_value (acc * 256 + b) bs < (acc + 1) * t) (sym (pow-suc 256 (length bs))) goal

pub read_u8-lt : (buffer : List ℕ) (p b : ℕ) → IsBytes buffer → read_u8 buffer p ≡ ok b → b < 256
unfolding read_u8
read_u8-lt [] p b h e = absurd (ground arith)
read_u8-lt (x ∷ xs) zero b h e = ground (arith, h.0)
read_u8-lt (x ∷ xs) (suc p) b h e = read_u8-lt xs p b h.1 e

read_u8-set_ne : (xs : List ℕ) (i j v : ℕ) → i ≢ j → read_u8 (set xs i v) j ≡ read_u8 xs j
unfolding read_u8
read_u8-set_ne xs i j v h = ap or_fault (get_elem?-set_ne xs i j v h)

-- Bytes are the same in two buffers, but for those from `p` to `e`.
abbrev pub SameOutside : ℕ → ℕ → List ℕ → List ℕ → Type 0
SameOutside p e buffer buffer' =
    (length buffer' ≡ length buffer)
    × (IsBytes buffer → IsBytes buffer')
    × ((q : ℕ) → (q < p) ⊎ (e ≤ q) → read_u8 buffer' q ≡ read_u8 buffer q)

pub write_bytes-within :
    (buffer : List ℕ) (p : ℕ) (bs : List ℕ)
    → p + length bs ≤ length buffer
    → IsBytes bs
    → (buffer' : List ℕ) × (write_bytes buffer p bs ≡ ok buffer')
      × SameOutside p (p + length bs) buffer buffer'
      × (read_at buffer' p (length bs) ≡ ok bs)
unfolding write_bytes read_at
write_bytes-within buffer p [] h k = (buffer, refl, (refl, λ b. b, λ q _. refl), refl)
write_bytes-within buffer p (b ∷ bs) h k =
    let (buffer', done, same, there) =
      write_bytes-within (set buffer p b) (suc p) bs (omega (arith, length-set buffer p b)) k.1 in
    let first : read_u8 buffer' p ≡ ok b =
      same.2 p (inl (omega arith))
      ∙ unfold read_u8 in (ap or_fault (get_elem?-set buffer p b (omega arith))) in
    let next : suc p ≡ p + 1 = omega arith in
    (
      buffer',
      rw (write_at-lt buffer p b (omega arith)) done,
      (
        same.0 ∙ length-set buffer p b,
        λ m. same.1 (All-set _ buffer p b m k.0),
        λ q out. same.2 q (further q out) ∙ read_u8-set_ne buffer p q b (apart q out),
      ),
      rw (first, sym next, there) refl,
    )
  where
    further : (q : ℕ) → (q < p) ⊎ (p + suc (length bs) ≤ q) → (q < suc p) ⊎ (suc p + length bs ≤ q)
    further q (inl k) = inl (omega arith)
    further q (inr k) = inr (omega arith)

    apart : (q : ℕ) → (q < p) ⊎ (p + suc (length bs) ≤ q) → p ≢ q
    apart q (inl k) = λ e. omega arith
    apart q (inr k) = λ e. omega arith

pub read_at-within :
    (buffer : List ℕ) (p n : ℕ)
    → p + n ≤ length buffer
    → IsBytes buffer
    → (bs : List ℕ) × (read_at buffer p n ≡ ok bs) × (length bs ≡ n) × IsBytes bs
unfolding read_at
read_at-within buffer p zero h k = ([], refl, refl, tt)
read_at-within buffer p (suc n) h k =
    let (b, e) = read_u8_within buffer p (omega arith) in
    let (bs, f, l, m) = read_at-within buffer (p + 1) n (omega arith) k in
    (b ∷ bs, rw (e, f) refl, ap suc l, (read_u8-lt buffer p b k e, m))

-- A number of bytes has no more digits.
pub read_number-within :
    (n p : ℕ) (buffer : List ℕ)
    → p + n ≤ length buffer
    → IsBytes buffer
    → (v : ℕ) × (read_number n buffer p ≡ ok v) × (v < 256 ^ n)
unfolding read_number
read_number-within n p buffer h k =
    let (bs, e, l, m) = read_at-within buffer p n h k in
    (be_value 0 bs, rw e refl, omega (arith, be_value-lt 0 bs m, ap (λ j. 256 ^ j) l))

pub read_at-same :
    (buffer buffer' : List ℕ) (p n : ℕ)
    → ((q : ℕ) → p ≤ q → q < p + n → read_u8 buffer' q ≡ read_u8 buffer q)
    → read_at buffer' p n ≡ read_at buffer p n
unfolding read_at
read_at-same buffer buffer' p zero h = refl
read_at-same buffer buffer' p (suc n) h =
    rw
      (
        h p (omega arith) (omega arith),
        read_at-same buffer buffer' (p + 1) n (λ q a b. h q (omega arith) (omega arith)),
      )
      refl

-- A number is read again as it was written.
pub read_number-write_number :
    (n v p : ℕ) (buffer : List ℕ)
    → v < 256 ^ n
    → p + n ≤ length buffer
    → (buffer' : List ℕ) × (write_number n v buffer p ≡ ok buffer')
      × SameOutside p (p + n) buffer buffer'
      × (read_number n buffer' p ≡ ok v)
unfolding read_number write_number
read_number-write_number n v p buffer small h =
    let size : length (be_bytes n v) ≡ n = length-be_bytes n v in
    let (buffer', done, same, there) =
      write_bytes-within buffer p (be_bytes n v) (omega arith) (be_bytes-IsBytes n v) in
    (
      buffer',
      done,
      (same.0, same.1, λ q out. same.2 q (subst (λ k. (q < p) ⊎ (p + k ≤ q)) (sym size) out)),
      rw (sym (ap (λ k. read_at buffer' p k) size) ∙ there) (ap ok (be_value-be_bytes n v small)),
    )
