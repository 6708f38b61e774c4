-- ===== src/Aggregator/Combine/Fields.antt =====
-- The loop of `aggregateFlow` over the fields of a template, in the direction of the flow.
use vermont.Base.{
  ℕ, suc, ◌+◌, ◌≤◌, ◌<◌, ◌≡◌, inl, inr, refl, sym, ◌∙◌, List, [], ◌∷◌, length, Bool, true, false,
  Outcome, ok, Bool-cases, All, arith,
}
use vermont.Aggregator.Combine.{operation, aggregate_field, aggregate_fields, aggregate_flow}
use vermont.Aggregator.Combine.Flow.{
  AreBuffers, apply_operation-Applied, InOrder, IsMerged, MergedIf-same,
}
use vermont.Aggregator.Combine.Merge.{IsSized, IsPlaced, IsPrivate}
use vermont.Aggregator.Field.{HashField, is_to_be_aggregated}
use vermont.Aggregator.Number.Memory.{IsBytes, read_at-same}
use vermont.Parser.Bytes.{read_u8}

-- A field of a template of `limit` bytes, and `size` bytes with the private data
pub record IsField (limit size : ℕ) (fi : HashField) : Type 0 where
  pub placed : IsPlaced limit size fi
  pub sized : IsSized (operation fi.info.type) fi.info.type.len
  pub privately : IsPrivate limit size fi (operation fi.info.type)

InOrder-after :
    (start : ℕ) (fis : List HashField) → InOrder start fis → All (λ fi. start ≤ fi.info.offset) fis
InOrder-after start [] h = tt
InOrder-after start (fi ∷ fis) h =
    (h.0, weaken fis (InOrder-after (fi.info.offset + fi.info.type.len) fis h.1))
  where
    weaken :
        (fs : List HashField)
        → All (λ f. fi.info.offset + fi.info.type.len ≤ f.info.offset) fs
        → All (λ f. start ≤ f.info.offset) fs
    weaken [] k = tt
    weaken (f ∷ fs) k = (omega (arith, h.0, k.0), weaken fs k.1)

AreBuffers-next :
    (limit size : ℕ) (base flow base1 : List ℕ)
    → AreBuffers limit size base flow
    → length base1 ≡ length base
    → IsBytes base1
    → AreBuffers limit size base1 flow
AreBuffers-next limit size base flow base1 b len bytes = record {
  base_fields = omega (arith, b.base_fields);
  base_private = omega (arith, b.base_private);
  flow_fields = b.flow_fields;
  flow_private = b.flow_private;
  base_bytes = bytes;
  flow_bytes = b.flow_bytes;
}

-- Fields behind `end` are merged with the flow of before, which differs only in front of `end`.
IsMerged-before :
    (limit size end : ℕ) (base base1 flow base' : List ℕ) (fis : List HashField)
    → ((q : ℕ) → q < limit → end ≤ q → read_u8 base1 q ≡ read_u8 base q)
    → All (IsField limit size) fis
    → All (λ fi. end ≤ fi.info.offset) fis
    → All (λ fi. IsMerged fi base1 flow base') fis
    → All (λ fi. IsMerged fi base flow base') fis
IsMerged-before limit size end base base1 flow base' [] same f a m = tt
IsMerged-before limit size end base base1 flow base' (fi ∷ fis) same (f, fs) (a, as') (m, ms) = (
  MergedIf-same (is_to_be_aggregated fi.info.type) fi base1 flow base' base base' f.sized
      (λ q h k. sym (same q (omega (arith, f.placed.inside)) (omega arith))) (λ q h k. refl) m,
  IsMerged-before limit size end base base1 flow base' fis same fs as' ms,
)

-- What the loop over the fields leaves
abbrev Looped : ℕ → ℕ → List HashField → List ℕ → List ℕ → Bool → Outcome (Bool × List ℕ) → Type 0
Looped limit start fis base flow result r =
    (base' : List ℕ) × (r ≡ ok (result, base'))
    × (length base' ≡ length base)
    × IsBytes base'
    × ((q : ℕ) → q < limit → q < start → read_u8 base' q ≡ read_u8 base q)
    × All (λ fi. IsMerged fi base flow base') fis

aggregate_fields-Looped :
    (all : List HashField) (mapper : List ℕ) (limit size start i : ℕ) (fis : List HashField)
    (base flow : List ℕ) (result : Bool)
    → InOrder start fis
    → All (IsField limit size) fis
    → AreBuffers limit size base flow
    → Looped limit start fis base flow result
        (aggregate_fields all mapper false i fis base flow result)
unfolding aggregate_fields aggregate_field
aggregate_fields-Looped all mapper limit size start i [] base flow result o f b =
    (base, refl, refl, b.base_bytes, λ q l s. refl, tt)
aggregate_fields-Looped all mapper limit size start i (fi ∷ fis) base flow result o (f, fs) b =
    elim (Bool-cases (is_to_be_aggregated fi.info.type)) [
      | inr kept ↦
          let (base', done, len, bytes, same, merged) =
            aggregate_fields-Looped all mapper limit size end (suc i) fis base flow result o.1 fs
              b in
          rw kept (
            base',
            done,
            len,
            bytes,
            λ q l s. same q l (omega (arith, o.0)),
            (
              read_at-same base base' fi.info.offset fi.info.type.len
                  (λ q a e. same q (omega (arith, f.placed.inside)) e),
              merged,
            ),
          )
      | inl summed ↦
          let (failed, base1, e, len1, bytes1, same1, m1) =
            apply_operation-Applied (operation fi.info.type) limit size fi base flow f.placed
              f.sized f.privately b in
          let (base', done, len, bytes, same, merged) =
            aggregate_fields-Looped all mapper limit size end (suc i) fis base1 flow result o.1 fs
              (AreBuffers-next limit size base flow base1 b len1 bytes1) in
          rw (summed, e)
            (
              base',
              done,
              len ∙ len1,
              bytes,
              λ q l s. same q l (omega (arith, o.0)) ∙ same1 q l (inl (omega (arith, o.0))),
              (
                MergedIf-same true fi base flow base1 base base' f.sized (λ q a z. refl)
                    (λ q a z. same q (omega (arith, f.placed.inside)) z) m1,
                IsMerged-before limit size end base base1 flow base' fis
                    (λ q l a. same1 q l (inr a)) fs (InOrder-after end fis o.1) merged,
              ),
            )
    ]
  where
    end : ℕ
    end = fi.info.offset + fi.info.type.len

-- A record that is added to a flow in its own direction changes each field of the flow by itself.
pub aggregate_flow-IsMerged :
    (fields : List HashField) (mapper : List ℕ) (limit size : ℕ) (base flow : List ℕ)
    → InOrder 0 fields
    → All (IsField limit size) fields
    → AreBuffers limit size base flow
    → (base' : List ℕ) × (aggregate_flow fields mapper false base flow ≡ ok (false, base'))
      × (length base' ≡ length base)
      × IsBytes base'
      × All (λ fi. IsMerged fi base flow base') fields
unfolding aggregate_flow
aggregate_flow-IsMerged fields mapper limit size base flow o f b =
    let (base', done, len, bytes, _, merged) =
      aggregate_fields-Looped fields mapper limit size 0 0 fields base flow false o f b in
    (base', done, len, bytes, merged)
