-- ===== src/Aggregator/Template/Created.antt =====
-- The template that `createDataTemplate` (src/modules/ipfix/aggregator/BaseHashtable.cpp) makes has the
-- layout that the flow table relies on.
use mathlib.Core.Option.{some-injective}
use vermont.Base.{
  ℕ, ◌+◌, ◌==◌, ◌&&◌, ◌≤◌, ◌<◌, ◌≡◌, ◌≢◌, refl, sym, ap, ◌∙◌, subst, if◌then◌else◌, Bool, true,
  false, List, [], ◌∷◌, Option, none, some, All, Bool-cases, inl, inr, arith,
}
use vermont.Aggregator.Combine.{operation}
use vermont.Aggregator.Combine.Flow.{InOrder}
use vermont.Aggregator.Combine.Merge.{IsPlaced, IsPrivate}
use vermont.Aggregator.Field.{HashField, pen_vermont, pen_vermont_reverse}
use vermont.Aggregator.Rule.{RuleField}
use vermont.Aggregator.Template.{
  TableTemplate, width, data_fields, private_offsets, is_type, shared_offset, consed,
  shared_offsets, finished, create_data_template,
}
use vermont.Aggregator.Template.Layout.{
  total_width, AreLaid, data_fields-AreLaid, operation-all, not-IsPrivate, AreHeld, total_private,
  private_offsets-AreHeld,
}

-- The field has a fixed length.
abbrev pub IsFixed : HashField → Type 0
IsFixed fi = fi.info.type.len ≢ 65535

module _ (limit size : ℕ) where
  -- A field that kept its type, and has the private data that it needs
  abbrev Keeps : HashField → HashField → Type 0
  Keeps fi fi' = (fi'.info ≡ fi.info) × IsPrivate limit size fi' (operation fi.info.type)

  moved_private :
      (fi : HashField) (offset enterprise : ℕ)
      → is_type 2 enterprise fi ≡ true
      → Keeps fi (record fi { priv_data_offset = offset })
  moved_private fi offset enterprise e = (
    refl,
    operation-all (IsPrivate limit size (record fi { priv_data_offset = offset }))
        (not-IsPrivate limit size (record fi { priv_data_offset = offset })) fi.info.type
        (λ one w. absurd (ground (arith, e, one))),
  )

  chosen :
      (fi fi' : HashField) (zero : Bool) (offset enterprise : ℕ)
      → is_type 2 enterprise fi ≡ true
      → (if zero then none else some (record fi { priv_data_offset = offset })) ≡ some fi'
      → Keeps fi fi'
  chosen fi fi' true offset enterprise t e = absurd (ground (arith, e))
  chosen fi fi' false offset enterprise t e =
      subst (Keeps fi) (some-injective (record fi { priv_data_offset = offset }) fi' e)
        (moved_private fi offset enterprise t)

  kept :
      (fi fi' : HashField) (refused : Bool)
      → IsPrivate limit size fi (operation fi.info.type)
      → (if refused then none else some fi) ≡ some fi'
      → Keeps fi fi'
  kept fi fi' true p e = absurd (ground (arith, e))
  kept fi fi' false p e = subst (Keeps fi) (some-injective fi fi' e) (refl, p)

  shared_offset-Keeps :
      (fp revfp : ℕ) (fi fi' : HashField)
      → IsPrivate limit size fi (operation fi.info.type)
      → shared_offset fp revfp fi ≡ some fi'
      → Keeps fi fi'
  unfolding shared_offset
  shared_offset-Keeps fp revfp fi fi' p e = elim (Bool-cases (is_type 2 pen_vermont fi)) [
    | inl t ↦ chosen fi fi' (fp == 0) fp pen_vermont t (rw t at e)
    | inr t ↦ elim (Bool-cases (is_type 2 pen_vermont_reverse fi)) [
      | inl u ↦ chosen fi fi' (revfp == 0) revfp pen_vermont_reverse u (rw (t, u) at e)
      | inr u ↦ kept fi fi' (is_type 4 pen_vermont fi && (fp == 0)) p (rw (t, u) at e)
    ]
  ]

  consed-some :
      (m : Option HashField) (ms : Option (List HashField)) (r : List HashField)
      → consed m ms ≡ some r
      → (fi : HashField) × (fis : List HashField) × (m ≡ some fi) × (ms ≡ some fis) × (r ≡ fi ∷ fis)
  consed-some none ms r e = absurd (ground (arith, e))
  consed-some (some fi) none r e = absurd (ground (arith, e))
  consed-some (some fi) (some fis) r e = (fi, fis, refl, refl, sym (some-injective (fi ∷ fis) r e))

  shared_offsets-AreHeld :
      (fp revfp start : ℕ) (fis r : List HashField)
      → AreHeld limit size start fis
      → shared_offsets fp revfp fis ≡ some r
      → AreHeld limit size start r
  unfolding shared_offsets
  shared_offsets-AreHeld fp revfp start [] r h e =
      subst (AreHeld limit size start) (some-injective [] r e) h
  shared_offsets-AreHeld fp revfp start (fi ∷ fis) r (o, p, held) e =
      let (fi', fis', e1, e2, er) =
        consed-some (shared_offset fp revfp fi) (shared_offsets fp revfp fis) r e in
      let (same, p') = shared_offset-Keeps fp revfp fi fi' p e1 in
      let rest = shared_offsets-AreHeld fp revfp (start + width fi.info.type) fis fis' held e2 in
      subst (AreHeld limit size start) (sym er) (
        ap (λ i. i.offset) same ∙ o,
        subst (λ i. IsPrivate limit size fi' (operation i.type)) (sym same) p',
        subst (λ i. AreHeld limit size (start + width i.type) fis') (sym same) rest,
      )

  abbrev pub IsHeld : HashField → Type 0
  IsHeld fi = IsPlaced limit size fi × IsPrivate limit size fi (operation fi.info.type)

  width-fixed : (fi : HashField) → IsFixed fi → width fi.info.type ≡ fi.info.type.len
  unfolding width
  width-fixed fi f = elim (Bool-cases (fi.info.type.len == 65535)) [
    | inl e ↦ absurd (f (ground (arith, e)))
    | inr e ↦ rw e refl
  ]

  AreHeld-InOrder :
      (start : ℕ) (fis : List HashField)
      → AreHeld limit size start fis
      → All IsFixed fis
      → InOrder start fis × All IsHeld fis × (start ≤ limit)
  AreHeld-InOrder start [] h f = (tt, tt, h)
  AreHeld-InOrder start (fi ∷ fis) (o, p, held) (f, fs) =
      let w = width-fixed fi f in
      let (order, all, le) = AreHeld-InOrder (start + width fi.info.type) fis held fs in
      let next : start + width fi.info.type ≡ fi.info.offset + fi.info.type.len =
        omega (arith, o, w) in
      (
        (omega (arith, o), subst (λ s. InOrder s fis) next order),
        ((record { inside = omega (arith, o, w, le) }, p), all),
        omega (arith, le),
      )

finished-some :
    (field_length priv : ℕ) (m : Option (List HashField)) (t : TableTemplate)
    → finished field_length priv m ≡ some t
    → (m ≡ some t.fields) × (t.field_length ≡ field_length) × (t.priv_data_length ≡ priv)
finished-some field_length priv none t e = absurd (ground (arith, e))
finished-some field_length priv (some fis) t e =
    let same =
      some-injective (record { fields = fis; field_length = field_length; priv_data_length = priv })
        t e in
    (
      ap (λ x. some x.fields) same,
      sym (ap (λ x. x.field_length) same),
      sym (ap (λ x. x.priv_data_length) same),
    )

-- Where createDataTemplate makes a template of fields of fixed length, and neither these nor their private
-- data have 2^16 bytes or more, the fields lie in order within fieldLength bytes, and each front payload
-- has its 8 bytes of private data behind them, within the private data.
pub create_data_template-IsHeld :
    (rule : List RuleField) (t : TableTemplate)
    → create_data_template rule ≡ some t
    → total_width rule < 65536
    → total_private (data_fields 0 rule).0 < 65536
    → All IsFixed t.fields
    → InOrder 0 t.fields
      × All (IsHeld t.field_length (t.field_length + t.priv_data_length)) t.fields
      × (t.field_length ≡ total_width rule)
unfolding create_data_template
create_data_template-IsHeld rule t e w p fixed =
    let (laid, end) = data_fields-AreLaid 0 rule (omega (arith, w)) in
    let limit : ℕ = (data_fields 0 rule).1 in
    let fis : List HashField = (data_fields 0 rule).0 in
    let laid' : AreLaid limit 0 fis = subst (λ l. AreLaid l 0 fis) (sym end) laid in
    let size : ℕ = limit + total_private fis in
    let (held, priv) =
      private_offsets-AreHeld limit size 0 0 fis laid' (omega (arith, p))
        (let le : limit + 0 + total_private fis ≤ limit + total_private fis = omega arith in le) in
    let (em, el, ep) = finished-some limit (private_offsets limit 0 fis).1 _ t e in
    let held' =
      shared_offsets-AreHeld limit size _ _ 0 (private_offsets limit 0 fis).0 t.fields held em in
    let same : t.field_length + t.priv_data_length ≡ size = omega (arith, el, ep, priv) in
    let ready : AreHeld t.field_length (t.field_length + t.priv_data_length) 0 t.fields =
      subst (λ s. AreHeld t.field_length s 0 t.fields) (sym same)
        (subst (λ l. AreHeld l size 0 t.fields) (sym el) held') in
    let (order, all, _) =
      AreHeld-InOrder t.field_length (t.field_length + t.priv_data_length) 0 t.fields ready fixed in
    (order, all, omega (arith, el, end))
