-- ===== src/Aggregator/Combine/Summed.antt =====
-- `aggregateFlow` sums up each information element as it is to be summed up.
use vermont.Base.{ℕ, ◌≡◌, refl, sym, subst, List, [], ◌∷◌, length, true, false, ok, All}
use vermont.Aggregator.Combine.{
  Operation, earliest, latest, sum, control_bits, earliest_set, front_payload, front_payload_len,
  aggregate_flow,
}
use vermont.Aggregator.Combine.Fields.{IsField, aggregate_flow-IsMerged}
use vermont.Aggregator.Combine.Flow.{AreBuffers, InOrder, IsMerged, MergedIf}
use vermont.Aggregator.Combine.Merge.{Merges, MergesBy}
use vermont.Aggregator.Field.{HashField, is_to_be_aggregated}
use vermont.Aggregator.Number.Memory.{IsBytes}
use vermont.Aggregator.Combine.Elements.{IsKey, IsSummed}
use vermont.Aggregator.Combine.Operations.{
  IsDoneBy, lesser-earlier, greater-later, earlier_set-earlier_known, start-IsDoneBy, end-IsDoneBy,
  count-IsDoneBy, reverse_start-IsDoneBy, reverse_end-IsDoneBy, reverse_count-IsDoneBy,
  bits-IsDoneBy, reverse_bits-IsDoneBy, payload-IsDoneBy, payload_length-IsDoneBy,
  packet_gap-IsDoneBy, payload_packets-IsDoneBy, is_to_be_aggregated-key,
}

-- The operation of an element says what it does to its field.
IsMerged-MergesBy :
    (op : Operation) (enterprise id : ℕ) (fi : HashField) (base flow base' : List ℕ)
    → fi.info.type.enterprise ≡ enterprise
    → fi.info.type.id ≡ id
    → IsDoneBy op enterprise id
    → IsMerged fi base flow base'
    → MergesBy op fi.info base flow base'
IsMerged-MergesBy op enterprise id fi base flow base' e i by m =
    let by' : IsDoneBy op fi.info.type.enterprise fi.info.type.id = rw (e, i) by in
    let (t, o) = by' fi.info.type.len in
    subst (λ p. MergesBy p fi.info base flow base') o
      (subst (λ b. MergedIf b fi base flow base') t m)

IsMerged-IsSummed :
    (fi : HashField) (base flow base' : List ℕ)
    → IsMerged fi base flow base'
    → IsSummed fi.info base flow base'
IsMerged-IsSummed fi base flow base' m = record {
  start = λ n e s.
      subst (λ f. Merges n f fi.info base flow base') lesser-earlier
        (IsMerged-MergesBy (earliest n) 0 fi.info.type.id fi base flow base' e refl
          (start-IsDoneBy fi.info.type.id n s) m);
  end = λ n e s.
      subst (λ f. Merges n f fi.info base flow base') greater-later
        (IsMerged-MergesBy (latest true n) 0 fi.info.type.id fi base flow base' e refl
          (end-IsDoneBy fi.info.type.id n s) m);
  count = λ e s.
      IsMerged-MergesBy (sum true 8) 0 fi.info.type.id fi base flow base' e refl
        (count-IsDoneBy fi.info.type.id s) m;
  tcp_control_bits =
      λ e i. IsMerged-MergesBy control_bits 0 6 fi base flow base' e i bits-IsDoneBy m;
  reverse_start = λ n e s.
      subst (λ f. Merges n f fi.info base flow base') earlier_set-earlier_known
        (IsMerged-MergesBy (earliest_set n) 29305 fi.info.type.id fi base flow base' e refl
          (reverse_start-IsDoneBy fi.info.type.id n s) m);
  reverse_end = λ n e s.
      subst (λ f. Merges n f fi.info base flow base') greater-later
        (IsMerged-MergesBy (latest true n) 29305 fi.info.type.id fi base flow base' e refl
          (reverse_end-IsDoneBy fi.info.type.id n s) m);
  reverse_count = λ e s.
      IsMerged-MergesBy (sum false 8) 29305 fi.info.type.id fi base flow base' e refl
        (reverse_count-IsDoneBy fi.info.type.id s) m;
  reverse_control_bits =
      λ e i. IsMerged-MergesBy control_bits 29305 6 fi base flow base' e i reverse_bits-IsDoneBy m;
  payload = λ o i.
      IsMerged-MergesBy front_payload fi.info.type.enterprise 1 fi base flow base' refl i
        (payload-IsDoneBy fi.info.type.enterprise o) m;
  payload_length = λ o i.
      IsMerged-MergesBy front_payload_len fi.info.type.enterprise 2 fi base flow base' refl i
        (payload_length-IsDoneBy fi.info.type.enterprise o) m;
  packet_gap = λ o i.
      subst (λ f. Merges 4 f fi.info base flow base') greater-later
        (IsMerged-MergesBy (latest false 4) fi.info.type.enterprise 3 fi base flow base' refl i
          (packet_gap-IsDoneBy fi.info.type.enterprise o) m);
  payload_packets = λ e i.
      IsMerged-MergesBy (sum false 4) 2003828736 4 fi base flow base' e i payload_packets-IsDoneBy
        m;
  key = λ e s. subst (λ b. MergedIf b fi base flow base') (is_key e s) m;
  kept = λ e. subst (λ b. MergedIf b fi base flow base') e m;
}
  where
    is_key :
        fi.info.type.enterprise ≡ 0
        → IsKey fi.info.type.id
        → is_to_be_aggregated fi.info.type ≡ false
    is_key e s =
        subst
          (λ n.
            is_to_be_aggregated
              (record { id = fi.info.type.id; enterprise = n; len = fi.info.type.len })
            ≡ false)
          (sym e) (is_to_be_aggregated-key fi.info.type.id fi.info.type.len s)

pub aggregate_flow-IsSummed :
    (fields : List HashField) (mapper : List ℕ) (limit size : ℕ) (base flow : List ℕ)
    → InOrder 0 fields
    → All (IsField limit size) fields
    → AreBuffers limit size base flow
    → (base' : List ℕ) × (aggregate_flow fields mapper false base flow ≡ ok (false, base'))
      × (length base' ≡ length base)
      × IsBytes base'
      × All (λ fi. IsSummed fi.info base flow base') fields
aggregate_flow-IsSummed fields mapper limit size base flow o f b =
    let (base', done, len, bytes, merged) =
      aggregate_flow-IsMerged fields mapper limit size base flow o f b in
    (base', done, len, bytes, summed base' fields merged)
  where
    summed :
        (base' : List ℕ) (fis : List HashField)
        → All (λ fi. IsMerged fi base flow base') fis
        → All (λ fi. IsSummed fi.info base flow base') fis
    summed base' [] m = tt
    summed base' (fi ∷ fis) (m, ms) = (IsMerged-IsSummed fi base flow base' m, summed base' fis ms)
