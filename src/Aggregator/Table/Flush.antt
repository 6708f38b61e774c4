-- ===== src/Aggregator/Table/Flush.antt =====
-- Calls of `BaseHashtable::expireFlows` (src/modules/ipfix/aggregator/BaseHashtable.cpp) that leave no
-- bucket.
use vermont.Base.{
  ◌≤◌, ◌⊎◌, All-map, ℕ, ◌≡◌, refl, ◌∙◌, inl, inr, Bool, true, false, List, [], ◌∷◌, ◌++◌, map,
  get_elem?, Option, some, ok, All, arith, subst,
}
use vermont.Aggregator.Table.{Bucket, Hashtable, has_timed_out, expire_flows}
use vermont.Aggregator.Table.Valid.{InChain, IsListed}
use vermont.Aggregator.Table.Expiry.{
  IsValid, take_while, drop_while, is_due, flow_at, expire_flows-IsValid,
}

take_while-all :
    (now : ℕ) (all : Bool) (store : List (Option Bucket)) (ids : List ℕ)
    → All (λ id. is_due now all store id ≡ true) ids
    → (take_while (is_due now all store) ids ≡ ids) × (drop_while (is_due now all store) ids ≡ [])
take_while-all now all store [] h = (refl, refl)
take_while-all now all store (id ∷ ids) (e, h) =
    let (taken, left) = take_while-all now all store ids h in rw (e, taken, left) (refl, refl)

chain-nil :
    (store : List (Option Bucket)) (k : ℕ) (chain : List ℕ)
    → All (InChain store [] k) chain
    → chain ≡ []
chain-nil store k [] h = refl
chain-nil store k (id ∷ ids) h = absurd (ground (arith, h.0.4))

-- Every flow was sent once, in the order of the list, and no bucket is left.
abbrev pub Flushed : Hashtable → Hashtable → Type 0
Flushed h h' =
    (h'.sent ≡ h.sent ++ map (flow_at h.store) h.export_list)
    × (h'.export_list ≡ [])
    × ((k : ℕ) (chain : List ℕ) → get_elem? h'.buckets k ≡ some chain → chain ≡ [])

flushed :
    (P : List ℕ → Type 0) (now : ℕ) (all : Bool) (h : Hashtable)
    → IsValid P h
    → All (λ id. is_due now all h.store id ≡ true) h.export_list
    → (h' : Hashtable) × (expire_flows now all h ≡ ok h') × Flushed h h'
flushed P now all h valid due =
    let (h', e, valid', sent', list') = expire_flows-IsValid P now all h valid in
    let (taken, left) = take_while-all now all h.store h.export_list due in
    let empty : h'.export_list ≡ [] = list' ∙ left in
    (
      h',
      e,
      (
        sent' ∙ rw taken refl,
        empty,
        λ k chain f.
            chain-nil h'.store k chain
              (subst (λ l. All (InChain h'.store l k) chain) empty (valid'.chained k chain f)),
      ),
    )

-- When all flows are flushed, each bucket's flow is sent once, in the order of the list, and neither the
-- list nor a chain of the table has a bucket left, whatever the time is.
pub expire_flows-all :
    (P : List ℕ → Type 0) (now : ℕ) (h : Hashtable)
    → IsValid P h
    → (h' : Hashtable) × (expire_flows now true h ≡ ok h') × Flushed h h'
expire_flows-all P now h valid = flushed P now true h valid (
    All-map (IsListed P h.htable_size h.store) (λ id. is_due now true h.store id ≡ true)
      (λ id (b, f, _, _). rw f (ground arith)) h.export_list valid.listed)

-- Where every bucket of the list has reached its inactive or its active timeout, a call that is not asked
-- to flush still sends every flow once and leaves no bucket.
pub expire_flows_later :
    (P : List ℕ → Type 0) (now : ℕ) (h : Hashtable)
    → IsValid P h
    → All
        (λ id.
          (b : Bucket) × (get_elem? h.store id ≡ some (some b))
          × ((b.inactive_expire_time ≤ now) ⊎ (b.active_expire_time ≤ now)))
        h.export_list
    → (h' : Hashtable) × (expire_flows now false h ≡ ok h') × Flushed h h'
expire_flows_later P now h valid late = flushed P now false h valid (
    All-map _ (λ id. is_due now false h.store id ≡ true) (λ id (b, f, l). rw f (reached b l))
      h.export_list late)
  where
    reached :
        (b : Bucket)
        → (b.inactive_expire_time ≤ now) ⊎ (b.active_expire_time ≤ now)
        → has_timed_out now false b ≡ true
    reached b (inl l) = ground (arith, l)
    reached b (inr l) = ground (arith, l)
