-- ===== src/Bloom/Laws.antt =====
-- `Bitmap` and `AgeArray` keep their marks: a set bit, and a time that is late enough.
use vermont.Base.{
  get_elem?-set, ℕ, suc, zero, ◌+◌, ◌/◌, ◌%◌, ◌<◌, ◌≤◌, ◌≡◌, refl, sym, subst, ap, ◌∙◌, Bool, true,
  false, List, length, get_elem?, get_elem?-lt, set, length-set, some, ok, or_fault, All,
  Option-cases, Bool-cases, inl, inr, ltb, lt→ltb, ltb→lt, arith, replicate, length-replicate,
  dec_lt,
}
use mathlib.Core.Option.{some-injective}
use vermont.Bloom.Cells.{
  Bitmap, NumberArray, bitmap_ops, age_ops, set_bit, get_bit, set_age, get_number, write_at,
  resize_bitmap, resize_array,
}
use vermont.Bloom.Marks.{MarkLaws, set-cases, All-get, All-set}

pub write_at-lt :
    {A : Type 0} (xs : List A) (i : ℕ) (v : A) → i < length xs → write_at xs i v ≡ ok (set xs i v)
unfolding write_at
write_at-lt xs i v h = rw (lt→ltb i (length xs) h) refl

pub All-replicate : {A : Type 0} (P : A → Type 0) (n : ℕ) (a : A) → P a → All P (replicate n a)
All-replicate P zero a p = tt
All-replicate P (suc n) a p = (p, All-replicate P n a p)

-- A bitmap of `n` bits has all its octets.
pub record IsBitmap (n : ℕ) (b : Bitmap) : Type 0 where
  pub bits : b.len_bits ≡ n
  pub octets : length b.bitmap ≡ (n + 7) / 8
  pub full : All (λ octet. length octet ≡ 8) b.bitmap

-- Bit `j` is set.
abbrev HasBit : ℕ → Bitmap → Type 0
HasBit j b =
    (j < b.len_bits)
    × (octet : List Bool) × (get_elem? b.bitmap (j / 8) ≡ some octet)
    × (get_elem? octet (j % 8) ≡ some true)

get_bit-HasBit : (j : ℕ) (b : Bitmap) → HasBit j b → get_bit j b ≡ ok true
unfolding get_bit
get_bit-HasBit j b (h, octet, e, f) = rw (lt→ltb j b.len_bits h, e, f) refl

HasBit-get_bit : (j : ℕ) (b : Bitmap) → get_bit j b ≡ ok true → HasBit j b
unfolding get_bit
HasBit-get_bit j b h = elim (Bool-cases (ltb j b.len_bits)) [
  | inr e ↦ absurd (ground (arith, h, e))
  | inl e ↦ elim (Option-cases (get_elem? b.bitmap (j / 8))) [
    | inl none' ↦ absurd (ground (arith, h, e, none'))
    | inr (octet, at) ↦ elim (Option-cases (get_elem? octet (j % 8))) [
      | inl none' ↦ absurd (ground (arith, h, e, at, none'))
      | inr (true, bit) ↦ (ltb→lt j b.len_bits e, octet, at, bit)
      | inr (false, bit) ↦ absurd (ground (arith, h, e, at, bit))
    ]
  ]
]

bit-kept :
    (octet : List Bool) (k j : ℕ)
    → get_elem? octet j ≡ some true
    → get_elem? (set octet k true) j ≡ some true
bit-kept octet k j e =
    let (b, at, h) = set-cases (λ i b. b ≡ true) octet k j true true e refl (λ h. refl) in
    at ∙ ap some h

set_bit-marks :
    (n k : ℕ) (v : Bool) (b : Bitmap)
    → IsBitmap n b
    → k < n
    → (b' : Bitmap) × (set_bit k v b ≡ ok b')
      × IsBitmap n b'
      × HasBit k b'
      × ((j : ℕ) → HasBit j b → HasBit j b')
unfolding set_bit
set_bit-marks n k v b valid h =
    let (octet, at) = get_elem?-lt b.bitmap (k / 8) (omega (arith, valid.octets)) in
    let full : length octet ≡ 8 =
      All-get (λ o. length o ≡ 8) b.bitmap (k / 8) octet valid.full at in
    let octet' : List Bool = set octet (k % 8) true in
    let b' : Bitmap = record b { bitmap = set b.bitmap (k / 8) octet' } in
    (
      b',
      rw
          (
            lt→ltb k b.len_bits (omega (arith, valid.bits)),
            at,
            write_at-lt octet (k % 8) true (omega arith),
            write_at-lt b.bitmap (k / 8) octet' (omega (arith, valid.octets)),
          )
          refl,
      record {
        bits = valid.bits;
        octets = rw (length-set b.bitmap (k / 8) octet') valid.octets;
        full =
            All-set (λ o. length o ≡ 8) b.bitmap (k / 8) octet' valid.full
              (rw (length-set octet (k % 8) true) full);
      },
      (
        omega (arith, valid.bits),
        octet',
        get_elem?-set b.bitmap (k / 8) octet' (omega (arith, valid.octets)),
        get_elem?-set octet (k % 8) true (omega arith),
      ),
      λ j m.
          let (o, found, bit) =
            set-cases (λ i o. get_elem? o (j % 8) ≡ some true) b.bitmap (k / 8) (j / 8) m.1 octet'
              m.2 m.3
              (λ same. bit-kept octet (k % 8) (j % 8) (
                subst (λ o. get_elem? o (j % 8) ≡ some true)
                  (some-injective _ _ (sym m.2 ∙ rw (sym same) at)) m.3)) in
          (m.0, o, found, bit),
    )

pub bitmap_laws : MarkLaws bitmap_ops (λ v. v ≡ true)
unfolding resize_bitmap
bitmap_laws = record {
  IsArray = IsBitmap;
  fresh = λ n. record {
    bits = refl;
    octets = length-replicate ((n + 7) / 8) (replicate 8 false);
    full = All-replicate (λ o. length o ≡ 8) ((n + 7) / 8) (replicate 8 false) refl;
  };
  marks = λ n k v b valid h mark.
      let (b', done, valid', marked, kept) = set_bit-marks n k v b valid h in
      (
        b',
        done,
        valid',
        (true, get_bit-HasBit k b' marked, refl),
        λ j m. (true, get_bit-HasBit j b' (kept j (HasBit-get_bit j b (m.1 ∙ ap ok m.2))), refl),
      );
}

ok-injective : {a b : ℕ} → ok a ≡ ok b → a ≡ b
ok-injective {a} h = ap (λ o. elim o [ ok x ↦ x | _ ↦ a ]) h

-- An array of `n` times
pub record IsNumbers (n : ℕ) (a : NumberArray) : Type 0 where
  pub size : a.array_size ≡ n
  pub all : length a.array ≡ n

get_number-lt :
    (j : ℕ) (a : NumberArray) → j < a.array_size → get_number j a ≡ or_fault (get_elem? a.array j)
unfolding get_number
get_number-lt j a h = rw (lt→ltb j a.array_size h) refl

get_number-ge : (j : ℕ) (a : NumberArray) → a.array_size ≤ j → get_number j a ≡ ok 0
unfolding get_number
get_number-ge j a h = ground (arith, h)

set_age-marks :
    (t n k v : ℕ) (a : NumberArray)
    → IsNumbers n a
    → k < n
    → t ≤ v
    → (a' : NumberArray) × (set_age k v a ≡ ok a')
      × IsNumbers n a'
      × ((w : ℕ) × (get_number k a' ≡ ok w) × (t ≤ w))
      × ((j : ℕ)
          → (w : ℕ) × (get_number j a ≡ ok w) × (t ≤ w)
          → (w : ℕ) × (get_number j a' ≡ ok w) × (t ≤ w))
unfolding set_age
set_age-marks t n k v a valid h mark =
    let a' : NumberArray = record a { array = set a.array k v } in
    (
      a',
      rw
          (
            lt→ltb k a.array_size (omega (arith, valid.size)),
            write_at-lt a.array k v (omega (arith, valid.all)),
          )
          refl,
      record { size = valid.size; all = length-set a.array k v ∙ valid.all },
      (
        v,
        get_number-lt k a' (omega (arith, valid.size))
            ∙ rw (get_elem?-set a.array k v (omega (arith, valid.all))) refl,
        mark,
      ),
      λ j (w, e, m). elim (dec_lt j n) [
        | yes inside ↦
            let (b, at) = get_elem?-lt a.array j (omega (arith, valid.all)) in
            let found : get_number j a ≡ ok b =
              get_number-lt j a (omega (arith, valid.size)) ∙ rw at refl in
            let same : b ≡ w = ok-injective (sym found ∙ e) in
            let (b', at', m') =
              set-cases (λ i b. t ≤ b) a.array k j b v at (omega arith) (λ q. mark) in
            (b', get_number-lt j a' (omega (arith, valid.size)) ∙ rw at' refl, m')
        | no outside ↦ (
          w,
          get_number-ge j a' (omega (arith, valid.size))
              ∙ sym (get_number-ge j a (omega (arith, valid.size)))
              ∙ e,
          m,
        )
      ],
    )

pub age_laws : (t : ℕ) → MarkLaws age_ops (λ v. t ≤ v)
unfolding resize_array
age_laws t = record {
  IsArray = IsNumbers;
  fresh = λ n. record { size = refl; all = length-replicate n 0 };
  marks = set_age-marks t;
}
