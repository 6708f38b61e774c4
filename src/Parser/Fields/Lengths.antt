-- ===== src/Parser/Fields/Lengths.antt =====
-- The lengths of a template's fields, against the sixteen bits of `recordLength`.
use vermont.Base.{
  ℕ, dec_lt, ◌+◌, ◌%◌, ◌^◌, ◌≤◌, ◌<◌, ◌≡◌, refl, subst, ◌⊎◌, inl, inr, true, if◌then◌else◌, List,
  [], ◌∷◌, ◌++◌, map, All, arith, Bool-cases,
}
use vermont.Record.{FieldInfo}
use vermont.Parser.Fields.{is_length_varying, unknown_offset}
use vermont.Parser.Fields.Safety.{Layout}

-- The sum of the announced lengths, without a bound.
abbrev pub total_length : List FieldInfo → ℕ
total_length [] = 0
total_length (f ∷ fs) = f.type.len + total_length fs

-- The least number of bytes that a data record takes: a field of variable length has a length byte.
abbrev pub min_length : List FieldInfo → ℕ
min_length [] = 0
min_length (f ∷ fs) = (if f.is_variable_length then 1 else f.type.len) + min_length fs

pub Layout-total_length :
    (start : ℕ) (fs : List FieldInfo) (total : ℕ)
    → start < 2 ^ 16
    → Layout start fs total
    → total ≡ (start + total_length fs) % 2 ^ 16
Layout-total_length start [] total h l = omega arith
Layout-total_length start (f ∷ fs) total h l =
    omega (arith, Layout-total_length ((start + f.type.len) % 2 ^ 16) fs total (omega arith) l.2)

pub min_length-append :
    (xs ys : List FieldInfo) → min_length (xs ++ ys) ≡ min_length xs + min_length ys
min_length-append [] ys = omega arith
min_length-append (x ∷ xs) ys = omega (arith, min_length-append xs ys)

pub min_length_unknown : (fs : List FieldInfo) → min_length (map unknown_offset fs) ≡ min_length fs
min_length_unknown [] = refl
min_length_unknown (f ∷ fs) = omega (arith, min_length_unknown fs)

-- A template with a field of variable length takes a byte or more.
pub varying-min_length : (fs : List FieldInfo) → is_length_varying fs ≡ true → 0 < min_length fs
varying-min_length [] h = ground arith
varying-min_length (f ∷ fs) h = ground (arith, varying-min_length fs)

-- If a data record may be empty, the record's length is where the layout began.
pub min_length_zero :
    (start : ℕ) (fs : List FieldInfo) (total : ℕ)
    → start < 2 ^ 16
    → Layout start fs total
    → min_length fs ≡ 0
    → total ≡ start
min_length_zero start [] total h l z = l
min_length_zero start (f ∷ fs) total h l z = elim (Bool-cases f.is_variable_length) [
  | inl e ↦ absurd (ground arith)
  | inr e ↦
      let zero_len : f.type.len ≡ 0 = ground arith in
      let start_same : (start + f.type.len) % 2 ^ 16 ≡ start = omega arith in
      min_length_zero start fs total h (subst (λ t. Layout t fs total) start_same l.2)
        (ground arith)
]

-- So a template whose data records have a length has none that is empty.
pub min_length_pos :
    (fs : List FieldInfo) (total : ℕ) → Layout 0 fs total → total ≡ 65535 → 0 < min_length fs
min_length_pos fs total l h = elim (dec_lt 0 (min_length fs)) [
  | yes p ↦ p
  | no z ↦ absurd (omega (arith, min_length_zero 0 fs total (omega arith) l (omega arith)))
]

-- A field of the record that the layout begins at `start`.
abbrev pub IsInside : ℕ → FieldInfo → Type 0
IsInside total f = f.offset + f.type.len ≤ total

Layout-total :
    (start : ℕ) (fs : List FieldInfo) (total : ℕ)
    → start + total_length fs < 2 ^ 16
    → Layout start fs total
    → total ≡ start + total_length fs
Layout-total start fs total h l = omega (arith, Layout-total_length start fs total (omega arith) l)

-- While the lengths fit in sixteen bits, every field lies within the record.
pub fields-IsInside :
    (start : ℕ) (fs : List FieldInfo) (total : ℕ)
    → start + total_length fs < 2 ^ 16
    → Layout start fs total
    → All (IsInside total) fs
fields-IsInside start [] total h l = tt
fields-IsInside start (f ∷ fs) total h l =
    let same : (start + f.type.len) % 2 ^ 16 ≡ start + f.type.len = omega arith in
    let l' : Layout (start + f.type.len) fs total = subst (λ t. Layout t fs total) same l.2 in
    (
      omega (arith, Layout-total (start + f.type.len) fs total (omega arith) l'),
      fields-IsInside (start + f.type.len) fs total (omega arith) l',
    )

-- Some element satisfies the predicate.
abbrev pub Any : (FieldInfo → Type 0) → List FieldInfo → Type 0
Any P [] = ⊥
Any P (f ∷ fs) = P f ⊎ Any P fs

-- Where the lengths do not fit, some field ends beyond every record of the template.
pub field_outside :
    (start : ℕ) (fs : List FieldInfo) (total : ℕ)
    → start < 2 ^ 16
    → 2 ^ 16 ≤ start + total_length fs
    → Layout start fs total
    → Any (λ f. 2 ^ 16 ≤ f.offset + f.type.len) fs
field_outside start [] total lt h l = absurd (omega arith)
field_outside start (f ∷ fs) total lt h l = elim (dec_lt (start + f.type.len) (2 ^ 16)) [
  | yes small ↦
      inr (field_outside ((start + f.type.len) % 2 ^ 16) fs total (omega arith) (omega arith) l.2)
  | no big ↦ inl (omega arith)
]

-- Two layouts in a row are one.
pub Layout-append :
    (start : ℕ) (xs ys : List FieldInfo) (mid total : ℕ)
    → Layout start xs mid
    → Layout mid ys total
    → Layout start (xs ++ ys) total
Layout-append start [] ys mid total h k = subst (λ t. Layout t ys total) h k
Layout-append start (x ∷ xs) ys mid total h k =
    (h.0, h.1, Layout-append ((start + x.type.len) % 2 ^ 16) xs ys mid total h.2 k)
