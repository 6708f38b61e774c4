-- ===== src/Aggregator/Table/Dropped.antt =====
-- `bufferDataBlock` (src/modules/ipfix/aggregator/FlowHashtable.cpp) takes a bucket out of the table when
-- it moves it to the end of the list, which PacketHashtable.cpp does not do in the same place.
use vermont.Base.{
  ok-injective, ℕ, ◌+◌, ◌<◌, ◌≡◌, refl, sym, ◌∙◌, inl, inr, true, false, List, get_elem?,
  get_elem?-lt, get_elem?-set, get_elem?-some, some, ok, All, Bool-cases, arith, subst, ltb,
}
use vermont.Aggregator.Combine.Flow.{InOrder}
use vermont.Aggregator.Combine.Fields.{IsField}
use vermont.Aggregator.Table.{
  Bucket, Hashtable, save, remove_bucket, move_back, renew, buffer_forward, is_late,
}
use vermont.Aggregator.Table.Expiry.{IsValid, load-some, loose, removed, remove_bucket-removed}
use vermont.Aggregator.Table.Renewal.{
  HasBucket, save-IsValid, move_back-IsValid, remove_bucket-IsValid,
}
use vermont.Aggregator.Table.Placing.{aggregate_flow-IsValid}
use vermont.Aggregator.Table.Search.{IsFlow}
use vermont.Aggregator.Table.Steps.{not-in_other}
use vermont.Aggregator.Table.Valid.{has, has-All, InChain}

-- The bucket is on the list and in no chain, so that no search finds it.
abbrev pub IsLost : ℕ → Hashtable → Type 0
IsLost id h =
    (has id h.export_list ≡ true)
    × ((k : ℕ) (chain : List ℕ) → get_elem? h.buckets k ≡ some chain → has id chain ≡ false)

IsValid-IsLost :
    (P : List ℕ → Type 0) (id : ℕ) (b : Bucket) (h : Hashtable)
    → IsValid P h
    → get_elem? h.store id ≡ some (some b)
    → b.in_table ≡ false
    → has id h.export_list ≡ true
    → IsLost id h
IsValid-IsLost P id b h valid e t m = (m, λ k chain f. absent k chain (valid.chained k chain f))
  where
    absent :
        (k : ℕ) (chain : List ℕ)
        → All (InChain h.store h.export_list k) chain
        → has id chain ≡ false
    absent k chain c = elim (Bool-cases (has id chain)) [
      | inr f ↦ f
      | inl f ↦ absurd (
          not-in_other P h.htable_size h.store h.export_list k id id b e (inl t)
            (has-All (InChain h.store h.export_list k) id chain c f) refl)
    ]

module _ (P : List ℕ → Type 0) where
  remove_bucket-IsLost :
      (id : ℕ) (b : Bucket) (h : Hashtable)
      → IsValid P h
      → HasBucket P id b h
      → (h' : Hashtable) × (remove_bucket id h ≡ ok h') × IsLost id h'
  remove_bucket-IsLost id b h valid at =
      let (chain, ec) =
        get_elem?-lt h.buckets b.hash (subst (λ n. b.hash < n) (sym valid.slots) at.1) in
      let done = remove_bucket-removed id b chain h at.0 ec in
      let (h', e, valid', t) = remove_bucket-IsValid P id b h valid at in
      let same : removed id b chain h ≡ h' = ok-injective (sym done ∙ e) in
      (
        removed id b chain h,
        done,
        IsValid-IsLost P id (loose b) (removed id b chain h) (subst (IsValid P) (sym same) valid')
            (get_elem?-set h.store id (some (loose b)) (get_elem?-some h.store id (some b) at.0))
            refl at.3,
      )

  renew-IsLost :
      (now id : ℕ) (b : Bucket) (h : Hashtable)
      → IsValid P h
      → HasBucket P id b h
      → now + h.inactive_timeout < b.active_expire_time
      → (h' : Hashtable) × (renew now id h ≡ ok h') × IsLost id h'
  unfolding renew
  renew-IsLost now id b h valid at l =
      let b' : Bucket = record b { inactive_expire_time = now + h.inactive_timeout } in
      let (valid1, at1) = save-IsValid P id b b' h valid at refl refl at.2 in
      let (valid2, at2, _) = move_back-IsValid P id b' (save id b' h) valid1 at1 in
      let (h', e, lost) = remove_bucket-IsLost id b' (move_back id (save id b' h)) valid2 at2 in
      let later : ltb (now + h.inactive_timeout) b.active_expire_time ≡ true = ground (arith, l) in
      rw (load-some id b h at.0, later) (h', e, lost)

-- A bucket in time that takes a record, and whose active timeout is later than its new inactive one, is
-- on the list of exports but in no chain of the table any more, so that no later record finds it, though
-- the flow is still in time.
pub buffer_forward-IsLost :
    (limit size now : ℕ) (flow : List ℕ) (id : ℕ) (b : Bucket) (h : Hashtable)
    → InOrder 0 h.fields
    → All (IsField limit size) h.fields
    → IsFlow limit size flow
    → IsValid (IsFlow limit size) h
    → HasBucket (IsFlow limit size) id b h
    → is_late now b ≡ false
    → now + h.inactive_timeout < b.active_expire_time
    → (h1 : Hashtable) × (buffer_forward now flow (some id) h ≡ ok (true, false, h1)) × IsLost id h1
unfolding buffer_forward save
buffer_forward-IsLost limit size now flow id b h o f sound valid at early later =
    let (base', done, valid1, at1, _) =
      aggregate_flow-IsValid limit size flow id b h o f sound valid at in
    let b1 : Bucket = record b { flow = base' } in
    let (h1, e, lost) =
      renew-IsLost (IsFlow limit size) now id b1 (save id b1 h) valid1 at1 later in
    rw (load-some id b h at.0, early, done, e) (h1, refl, lost)
