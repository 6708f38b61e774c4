-- ===== src/Aggregator/Template/Layout.antt =====
-- `createDataTemplate` places the fields of a flow one behind the other, and their private data behind
-- all of them.
use vermont.Base.{
  ℕ, ◌+◌, ◌%◌, ◌==◌, ◌≤◌, ◌<◌, ◌≡◌, ◌⊎◌, refl, ◌∙◌, if◌then◌else◌, Bool, true, false, List, [], ◌∷◌,
  Bool-cases, inl, inr, arith, subst,
}
use vermont.Aggregator.Combine.{
  Operation, earliest, latest, sum, control_bits, earliest_set, front_payload, front_payload_len,
  no_operation, operation, plain_operation, reverse_operation, payload_operation,
}
use vermont.Aggregator.Combine.Merge.{IsPrivate}
use vermont.Aggregator.Field.{HashField, one_of, pen_reverse, pen_vermont, pen_vermont_reverse}
use vermont.Aggregator.Rule.{RuleField}
use vermont.Aggregator.Template.{width, data_fields, private_length, private_offsets}
use vermont.Record.{IeInfo}

-- The bytes of the kept fields of a rule
abbrev pub total_width : List RuleField → ℕ
total_width [] = 0
total_width (rf ∷ rfs) =
    if rf.modifier == 0 then total_width rfs else width rf.type + total_width rfs

-- Fields with all their bytes between `start` and `limit`, in order
abbrev pub AreLaid : ℕ → ℕ → List HashField → Type 0
AreLaid limit start [] = start ≤ limit
AreLaid limit start (fi ∷ fis) =
    (fi.info.offset ≡ start) × AreLaid limit (start + width fi.info.type) fis

pub data_fields-AreLaid :
    (start : ℕ) (rfs : List RuleField)
    → start + total_width rfs < 65536
    → AreLaid (start + total_width rfs) start (data_fields start rfs).0
      × ((data_fields start rfs).1 ≡ start + total_width rfs)
unfolding data_fields
data_fields-AreLaid start [] h = (omega arith, omega arith)
data_fields-AreLaid start (rf ∷ rfs) h = elim (Bool-cases (rf.modifier == 0)) [
  | inl e ↦ rw e (data_fields-AreLaid start rfs (rw e at h))
  | inr e ↦
      let h' : start + (width rf.type + total_width rfs) < 65536 = rw e at h in
      let small : (start + width rf.type) % 65536 ≡ start + width rf.type = omega (arith, h') in
      let (laid, end) = data_fields-AreLaid (start + width rf.type) rfs (omega (arith, h')) in
      let sum : start + width rf.type + total_width rfs
          ≡ start + (width rf.type + total_width rfs) =
        omega arith in
      rw (e, small)
        (
          (
            refl,
            subst
                (λ l. AreLaid l (start + width rf.type) (data_fields (start + width rf.type) rfs).0)
                sum laid,
          ),
          end ∙ sum,
        )
]

if-all {ℓ} :
    {A : Type 0} (P : A → Type ℓ) (b : Bool) {x y : A}
    → (b ≡ true → P x)
    → (b ≡ false → P y)
    → P (if b then x else y)
if-all P true f g = f refl
if-all P false f g = g refl

abbrev is_front : Operation → Bool
is_front (earliest _) = false
is_front (latest _ _) = false
is_front (sum _ _) = false
is_front control_bits = false
is_front (earliest_set _) = false
is_front front_payload = true
is_front front_payload_len = false
is_front no_operation = false

-- The front payload is the operation of one information element and its reverse only.
module _ (P : Operation → Type 0) (others : (op : Operation) → is_front op ≡ false → P op) where
  plain-all : (id : ℕ) → P (plain_operation id)
  unfolding plain_operation
  plain-all id =
      if-all P (one_of (22 ∷ 150 ∷ 154 ∷ []) id) (λ _. others _ refl)
        (λ _.
          if-all P (one_of (152 ∷ 156 ∷ []) id) (λ _. others _ refl)
            (λ _.
              if-all P (one_of (21 ∷ 151 ∷ 155 ∷ []) id) (λ _. others _ refl)
                (λ _.
                  if-all P (one_of (153 ∷ 157 ∷ []) id) (λ _. others _ refl)
                    (λ _.
                      if-all P (one_of (85 ∷ 1 ∷ 23 ∷ 86 ∷ 2 ∷ 24 ∷ 132 ∷ 133 ∷ []) id)
                        (λ _. others _ refl)
                        (λ _. if-all P (id == 6) (λ _. others _ refl) (λ _. others _ refl))))))

  reverse-all : (id : ℕ) → P (reverse_operation id)
  unfolding reverse_operation
  reverse-all id =
      if-all P (id == 150) (λ _. others _ refl)
        (λ _.
          if-all P (one_of (152 ∷ 156 ∷ []) id) (λ _. others _ refl)
            (λ _.
              if-all P (id == 151) (λ _. others _ refl)
                (λ _.
                  if-all P (one_of (153 ∷ 157 ∷ []) id) (λ _. others _ refl)
                    (λ _.
                      if-all P (one_of (85 ∷ 1 ∷ 86 ∷ 2 ∷ []) id) (λ _. others _ refl)
                        (λ _. if-all P (id == 6) (λ _. others _ refl) (λ _. others _ refl))))))

  payload-all : (id : ℕ) → (id ≡ 1 → P front_payload) → P (payload_operation id)
  unfolding payload_operation
  payload-all id h =
      if-all P (id == 1) (λ e. h (ground (arith, e)))
        (λ _.
          if-all P (id == 2) (λ _. others _ refl)
            (λ _. if-all P (id == 3) (λ _. others _ refl) (λ _. others _ refl)))

  pub operation-all :
      (type : IeInfo)
      → (type.id ≡ 1
          → (type.enterprise ≡ pen_vermont) ⊎ (type.enterprise ≡ pen_vermont_reverse)
          → P front_payload)
      → P (operation type)
  unfolding operation
  operation-all type h =
      if-all P (type.enterprise == 0) (λ _. plain-all type.id)
        (λ _.
          if-all P (type.enterprise == pen_reverse) (λ _. reverse-all type.id)
            (λ _.
              if-all P (type.enterprise == pen_vermont)
                (λ e.
                  if-all P (type.id == 4) (λ _. others _ refl)
                    (λ _. payload-all type.id (λ one. h one (inl (ground (arith, e))))))
                (λ _.
                  if-all P (type.enterprise == pen_vermont_reverse)
                    (λ e. payload-all type.id (λ one. h one (inr (ground (arith, e)))))
                    (λ _. others _ refl))))

private_front :
    (type : IeInfo)
    → type.id ≡ 1
    → (type.enterprise ≡ pen_vermont) ⊎ (type.enterprise ≡ pen_vermont_reverse)
    → private_length type ≡ 12
unfolding private_length
private_front type one (inl e) = rw (e, one) refl
private_front type one (inr e) = rw (e, one) refl

module _ (limit size : ℕ) where
  pub not-IsPrivate :
      (fi : HashField) (op : Operation) → is_front op ≡ false → IsPrivate limit size fi op
  not-IsPrivate fi (earliest _) e = tt
  not-IsPrivate fi (latest _ _) e = tt
  not-IsPrivate fi (sum _ _) e = tt
  not-IsPrivate fi control_bits e = tt
  not-IsPrivate fi (earliest_set _) e = tt
  not-IsPrivate fi front_payload e = absurd (ground (arith, e))
  not-IsPrivate fi front_payload_len e = tt
  not-IsPrivate fi no_operation e = tt

  -- Fields in order, with the private data that their operations use behind all of them
  abbrev pub AreHeld : ℕ → List HashField → Type 0
  AreHeld start [] = start ≤ limit
  AreHeld start (fi ∷ fis) =
      (fi.info.offset ≡ start)
      × IsPrivate limit size fi (operation fi.info.type)
      × AreHeld (start + width fi.info.type) fis

abbrev pub total_private : List HashField → ℕ
total_private [] = 0
total_private (fi ∷ fis) = private_length fi.info.type + total_private fis

pub private_offsets-AreHeld :
    (limit size start priv : ℕ) (fis : List HashField)
    → AreLaid limit start fis
    → priv + total_private fis < 65536
    → limit + priv + total_private fis ≤ size
    → AreHeld limit size start (private_offsets limit priv fis).0
      × ((private_offsets limit priv fis).1 ≡ priv + total_private fis)
unfolding private_offsets
private_offsets-AreHeld limit size start priv [] laid h k = (laid, omega arith)
private_offsets-AreHeld limit size start priv (fi ∷ fis) (at_start, laid) h k =
    let len : ℕ = private_length fi.info.type in
    let small : (priv + len) % 65536 ≡ priv + len = omega (arith, h) in
    let (held, end) =
      private_offsets-AreHeld limit size (start + width fi.info.type) (priv + len) fis laid
        (omega (arith, h)) (omega (arith, k)) in
    let sum : priv + len + total_private fis ≡ priv + (len + total_private fis) = omega arith in
    elim (Bool-cases (len == 0)) [
      | inl e ↦
          rw (small, e)
            (
              (
                at_start,
                operation-all (IsPrivate limit size fi) (not-IsPrivate limit size fi) fi.info.type
                    (λ one w.
                      let twelve = private_front fi.info.type one w in
                      absurd (ground (arith, e, twelve))),
                held,
              ),
              end ∙ sum,
            )
      | inr e ↦
          rw (small, e)
            (
              (
                at_start,
                operation-all (IsPrivate limit size (record fi { priv_data_offset = limit + priv }))
                    (not-IsPrivate limit size (record fi { priv_data_offset = limit + priv }))
                    fi.info.type
                    (λ one w.
                      let twelve = private_front fi.info.type one w in
                      (omega arith, omega (arith, k, twelve))),
                held,
              ),
              end ∙ sum,
            )
    ]
