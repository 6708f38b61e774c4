-- ===== src/Bloom/Key/Contents.antt =====
-- What a `GenericKey` holds after `append`, and the order of the ends in a `QuintupleKey`.
use vermont.Base.{
  ℕ, zero, suc, ◌+◌, ◌-◌, ◌%◌, ◌^◌, ◌≤◌, ◌<◌, ◌≡◌, refl, sym, ap, ◌∙◌, ltb, List, [], ◌∷◌, ◌++◌,
  length, set, length-set, length-append, take, append_assoc, append-nil, Outcome, ok, ◌>>=◌,
  Bool-cases, inl, inr, arith, ltb→lt, ltb→le,
}
use vermont.Bloom.Laws.{write_at-lt}
use vermont.Bloom.Key.{GenericKey, read_bytes, write_bytes, append, quintuple}

read_bytes-take :
    (buffer : List ℕ) (n : ℕ) → n ≤ length buffer → read_bytes buffer n ≡ ok (take n buffer)
unfolding read_bytes
read_bytes-take buffer zero h = refl
read_bytes-take [] (suc n) h = absurd (omega arith)
read_bytes-take (b ∷ bs) (suc n) h = rw (read_bytes-take bs n (omega arith)) refl

length-take : (n : ℕ) (xs : List ℕ) → n ≤ length xs → length (take n xs) ≡ n
length-take zero xs h = refl
length-take (suc n) [] h = absurd (omega arith)
length-take (suc n) (x ∷ xs) h = ap suc (length-take n xs (omega arith))

take-set :
    (i : ℕ) (xs : List ℕ) (b : ℕ) → i < length xs → take (suc i) (set xs i b) ≡ take i xs ++ b ∷ []
take-set i [] b h = absurd (omega arith)
take-set zero (x ∷ xs) b h = refl
take-set (suc i) (x ∷ xs) b h = ap (λ ys. x ∷ ys) (take-set i xs b (omega arith))

-- `memcpy` writes its bytes behind those that it leaves.
write_bytes-take :
    (buffer : List ℕ) (i : ℕ) (bs : List ℕ)
    → i + length bs ≤ length buffer
    → (buffer' : List ℕ) × (write_bytes buffer i bs ≡ ok buffer')
      × (length buffer' ≡ length buffer)
      × (take (i + length bs) buffer' ≡ take i buffer ++ bs)
unfolding write_bytes
write_bytes-take buffer i [] h =
    (buffer, refl, refl, ap (λ n. take n buffer) (omega arith) ∙ sym (append-nil (take i buffer)))
write_bytes-take buffer i (b ∷ bs) h =
    let (buffer', done, len, contents) =
      write_bytes-take (set buffer i b) (suc i) bs (omega (arith, length-set buffer i b)) in
    (
      buffer',
      rw (write_at-lt buffer i b (omega arith)) done,
      len ∙ length-set buffer i b,
      ap (λ n. take n buffer') (omega arith)
          ∙ contents
          ∙ ap (λ ys. ys ++ bs) (take-set i buffer b (omega arith))
          ∙ append_assoc (take i buffer) (b ∷ []) bs,
    )

take-append : (xs ys : List ℕ) (n : ℕ) → take (length xs + n) (xs ++ ys) ≡ xs ++ take n ys
take-append [] ys n = let e : 0 + n ≡ n = omega arith in ap (λ m. take m ys) e
take-append (x ∷ xs) ys n =
    let e : suc (length xs) + n ≡ suc (length xs + n) = omega arith in
    ap (λ m. take m (x ∷ xs ++ ys)) e ∙ ap (λ zs. x ∷ zs) (take-append xs ys n)

take-take : (m n : ℕ) (xs : List ℕ) → m ≤ n → take m (take n xs) ≡ take m xs
take-take zero n xs h = refl
take-take (suc m) zero xs h = absurd (omega arith)
take-take (suc m) (suc n) [] h = refl
take-take (suc m) (suc n) (x ∷ xs) h = ap (λ ys. x ∷ ys) (take-take m n xs (omega arith))

take_all : (n : ℕ) (xs : List ℕ) → length xs ≤ n → take n xs ≡ xs
take_all zero [] h = refl
take_all zero (x ∷ xs) h = absurd (omega arith)
take_all (suc n) [] h = refl
take_all (suc n) (x ∷ xs) h = ap (λ ys. x ∷ ys) (take_all n xs (omega arith))

-- The bytes of a key
unfoldable pub contents : GenericKey → List ℕ
contents k = take k.len k.data_

-- The two calls of `memcpy` on `m` bytes, and the key with the length `len`
abbrev copy : List ℕ → ℕ → ℕ → GenericKey → Outcome GenericKey
copy input m len k = do
  bytes ← read_bytes input m
  data' ← write_bytes k.data_ k.len bytes
  ok (record { len = len; data_ = data' })

copied :
    (input : List ℕ) (m len : ℕ) (k : GenericKey)
    → m ≤ length input
    → k.len + m ≤ length k.data_
    → (data' : List ℕ) × (copy input m len k ≡ ok (record { len = len; data_ = data' }))
      × (length data' ≡ length k.data_)
      × (take (k.len + m) data' ≡ take k.len k.data_ ++ take m input)
copied input m len k h l =
    let size : length (take m input) ≡ m = length-take m input h in
    let (data', done, same, bytes) = write_bytes-take k.data_ k.len (take m input) (omega arith) in
    (
      data',
      rw (read_bytes-take input m h, done) refl,
      same,
      ap (λ n. take (k.len + n) data') (sym size) ∙ bytes,
    )

-- append adds the first inputlen bytes of the input to the bytes of the key, cut at the size of
-- the key, and writes nothing beyond it, if the input has that many bytes and the sum of the
-- lengths is below 2^32.
pub contents-append :
    (input : List ℕ) (inputlen : ℕ) (k : GenericKey)
    → k.len ≤ length k.data_
    → inputlen ≤ length input
    → k.len + inputlen < 2 ^ 32
    → (k' : GenericKey) × (append input inputlen k ≡ ok k')
      × (contents k' ≡ take (length k.data_) (contents k ++ take inputlen input))
      × (k'.len ≤ length k'.data_)
      × (length k'.data_ ≡ length k.data_)
unfolding append contents
contents-append input n k v h small = elim (Bool-cases (ltb k.len (length k.data_))) [
  | inl e ↦ elim (Bool-cases (ltb ((k.len + n) % 2 ^ 32) (length k.data_))) [
    | inl f ↦
        let sum : (k.len + n) % 2 ^ 32 ≡ k.len + n = omega arith in
        let fits : k.len + n < length k.data_ = omega (arith, ltb→lt _ _ f) in
        let (data', done, same, bytes) = copied input n ((k.len + n) % 2 ^ 32) k h (omega arith) in
        (
          record { len = (k.len + n) % 2 ^ 32; data_ = data' },
          rw (e, f) done,
          ap (λ m. take m data') sum
              ∙ bytes
              ∙ sym (
                  take_all (length k.data_) (take k.len k.data_ ++ take n input) (
                    rw
                      (
                        length-append (take k.len k.data_) (take n input),
                        length-take k.len k.data_ v,
                        length-take n input h,
                      )
                      (omega arith))),
          omega arith,
          same,
        )
    | inr f ↦
        let full : length k.data_ ≤ k.len + n = ground (arith, f, small) in
        let m : ℕ = length k.data_ - k.len in
        let end : length k.data_ ≡ k.len + m = omega arith in
        let end' : length (take k.len k.data_) + m ≡ length k.data_ =
          omega (arith, length-take k.len k.data_ v) in
        let (data', done, same, bytes) =
          copied input m (length k.data_) k (omega arith) (omega arith) in
        (
          record { len = length k.data_; data_ = data' },
          rw (e, f) done,
          ap (λ j. take j data') end
              ∙ bytes
              ∙ ap (λ ys. take k.len k.data_ ++ ys) (sym (take-take m n input (omega arith)))
              ∙ sym (take-append (take k.len k.data_) (take n input) m)
              ∙ ap (λ j. take j (take k.len k.data_ ++ take n input)) end',
          omega arith,
          same,
        )
  ]
  | inr e ↦ (
    k,
    rw e refl,
    (let end : length k.data_ ≡ length (take k.len k.data_) + 0 =
          omega (arith, length-take k.len k.data_ v, ltb→le _ _ e) in
        sym (
          ap (λ j. take j (take k.len k.data_ ++ take n input)) end
          ∙ take-append (take k.len k.data_) (take n input) 0
          ∙ append-nil (take k.len k.data_))),
    v,
    refl,
  )
]

-- The packets of both directions of a connection have the same key.
pub quintuple_reverse :
    (ip1 ip2 port1 port2 : ℕ) → quintuple ip1 ip2 port1 port2 ≡ quintuple ip2 ip1 port2 port1
unfolding quintuple
quintuple_reverse ip1 ip2 port1 port2 = ground arith

-- Between equal addresses, connections with the same smaller port have the same key, whatever the
-- larger port is.
pub quintuple_same_ip :
    (ip port1 port2 port3 : ℕ)
    → port1 ≤ port2
    → port1 ≤ port3
    → quintuple ip ip port1 port2 ≡ quintuple ip ip port1 port3
unfolding quintuple
quintuple_same_ip ip port1 port2 port3 h j = ground arith
