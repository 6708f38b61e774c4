-- ===== src/Aggregator/Table/Placing.antt =====
-- The branches of `bufferDataBlock` for a flow in its own direction, and the new bucket
-- (src/modules/ipfix/aggregator/FlowHashtable.cpp).
use vermont.Base.{
  get_elem?-set, get_elem?-some, ℕ, ◌+◌, ◌<◌, ◌≡◌, ◌≢◌, ◌⊎◌, refl, sym, ap, ◌∙◌, inl, inr, true,
  false, List, [], ◌∷◌, length, get_elem?, get_elem?-lt, get_elem?-append, get_elem?-append_last,
  none, some, ok, All, arith, subst,
}
use vermont.Aggregator.Combine.Elements.{IsSummed}
use vermont.Aggregator.Combine.Flow.{InOrder}
use vermont.Aggregator.Combine.Summed.{aggregate_flow-IsSummed}
use vermont.Aggregator.Combine.Fields.{IsField}
use vermont.Aggregator.Key.{equal_flow}
use vermont.Aggregator.Combine.{aggregate_flow}
use vermont.Aggregator.Table.{Bucket, Hashtable, save, is_late, buffer_forward, create_bucket}
use vermont.Aggregator.Table.Expiry.{IsValid, load-some}
use vermont.Aggregator.Table.Renewal.{
  Touched, Touched-trans, save-Touched, HasBucket, save-IsValid, renew-IsValid,
  force_expiry_of-IsValid,
}
use vermont.Aggregator.Table.Steps.{same-or-not, one_bucket}
use vermont.Aggregator.Table.Moves.{created}
use vermont.Aggregator.Table.Valid.{has, has-append}
use vermont.Aggregator.Table.Search.{IsFlow, Found}

module _ (limit size : ℕ) where
  -- The flow of the record was found, and is not too late: the record is merged into its bucket, and no
  -- other bucket changes.
  abbrev pub Joined : ℕ → List ℕ → Hashtable → Hashtable → Type 0
  Joined now flow h h' =
      (id : ℕ) × (b : Bucket) × (b' : Bucket) × (get_elem? h.store id ≡ some (some b))
      × (equal_flow h.fields h.rev_key_mapper b.flow flow false ≡ ok true)
      × (is_late now b ≡ false)
      × (get_elem? h'.store id ≡ some (some b'))
      × All (λ fi. IsSummed fi.info b.flow flow b'.flow) h.fields
      × (length h'.store ≡ length h.store)
      × ((j : ℕ) → id ≢ j → get_elem? h'.store j ≡ get_elem? h.store j)

  -- The chain of the record's hash has no such flow, or one that is too late.
  abbrev pub NotFound : ℕ → List ℕ → ℕ → Hashtable → Type 0
  NotFound now flow hash h =
      ((chain : List ℕ) × (get_elem? h.buckets hash ≡ some chain)
        × Found limit size h flow chain none)
      ⊎ ((id : ℕ) × (b : Bucket) × (get_elem? h.store id ≡ some (some b))
          × (equal_flow h.fields h.rev_key_mapper b.flow flow false ≡ ok true)
          × (is_late now b ≡ true))

  -- The record has a new bucket, in the table and in the chain of its hash, and the buckets of before keep
  -- their flows.
  abbrev pub Entered : ℕ → List ℕ → ℕ → Hashtable → Hashtable → Type 0
  Entered now flow hash h h' =
      (b : Bucket) × (get_elem? h'.store (length h.store) ≡ some (some b))
      × (b.flow ≡ flow)
      × (b.in_table ≡ true)
      × (b.hash ≡ hash)
      × ((chain : List ℕ) × (get_elem? h'.buckets hash ≡ some chain)
          × (has (length h.store) chain ≡ true))
      × ((j : ℕ) (c : Bucket)
          → get_elem? h.store j ≡ some (some c)
          → (c' : Bucket) × (get_elem? h'.store j ≡ some (some c')) × (c'.flow ≡ c.flow))

  -- What every call leaves
  abbrev pub Stored : Hashtable → Hashtable → Type 0
  Stored h h' =
      IsValid (IsFlow limit size) h'
      × (h'.sent ≡ h.sent)
      × ((j : ℕ) → has j h.export_list ≡ true → has j h'.export_list ≡ true)

  pub create_bucket-Entered :
      (now : ℕ) (flow : List ℕ) (hash : ℕ) (h : Hashtable)
      → IsValid (IsFlow limit size) h
      → IsFlow limit size flow
      → hash < h.htable_size
      → (h' : Hashtable) × (create_bucket now flow hash h ≡ ok h')
        × Stored h h'
        × Entered now flow hash h h'
  unfolding create_bucket
  create_bucket-Entered now flow hash h valid sound l =
      let (chain, ec) = get_elem?-lt h.buckets hash (subst (λ n. hash < n) (sym valid.slots) l) in
      rw ec (
        _,
        refl,
        (
          created (IsFlow limit size) h.htable_size h.store h.buckets h.export_list b chain valid ec
              refl sound,
          refl,
          λ j m. has-append j h.export_list (length h.store ∷ []) ∙ ground (arith, m),
        ),
        (
          b,
          get_elem?-append_last h.store (some b),
          refl,
          refl,
          refl,
          (
            length h.store ∷ chain,
            get_elem?-set h.buckets hash (length h.store ∷ chain)
                (get_elem?-some h.buckets hash chain ec),
            ground arith,
          ),
          λ j c e. (c, get_elem?-append h.store (some b ∷ []) j (some c) e, refl),
        ),
      )
    where
      b : Bucket
      b = record {
        inactive_expire_time = now + h.inactive_timeout;
        active_expire_time = now + h.active_timeout;
        flow = flow;
        force_expiry = false;
        in_table = true;
        hash = hash;
      }

  -- A bucket that is taken out of the table keeps its flow.
  Touched-keeps :
      (id : ℕ) (b : Bucket) (h h1 : Hashtable)
      → get_elem? h.store id ≡ some (some b)
      → Touched id b.flow h h1
      → (j : ℕ) (c : Bucket) → get_elem? h.store j ≡ some (some c)
      → (c' : Bucket) × (get_elem? h1.store j ≡ some (some c')) × (c'.flow ≡ c.flow)
  Touched-keeps id b h h1 e t j c ec = elim (same-or-not id j) [
    | inr n ↦ (c, t.others j n ∙ ec, refl)
    | inl s ↦
        let (b', eb, fb) = t.here in
        let same : b ≡ c =
          one_bucket (IsFlow limit size) h.htable_size h.store j b c
            (ap (get_elem? h.store) (sym s) ∙ e) ec in
        (b', ap (get_elem? h1.store) (sym s) ∙ eb, fb ∙ ap (λ x. x.flow) same)
  ]

  -- A late bucket leaves the table.
  pub buffer_forward-late :
      (now : ℕ) (flow : List ℕ) (id : ℕ) (b : Bucket) (h : Hashtable)
      → IsValid (IsFlow limit size) h
      → HasBucket (IsFlow limit size) id b h
      → is_late now b ≡ true
      → (h1 : Hashtable) × (buffer_forward now flow (some id) h ≡ ok (false, true, h1))
        × IsValid (IsFlow limit size) h1
        × Touched id b.flow h h1
  unfolding buffer_forward
  buffer_forward-late now flow id b h valid at late =
      let (h1, e, valid1, t) = force_expiry_of-IsValid (IsFlow limit size) id b h valid at in
      rw (load-some id b h at.0, late, e) (h1, refl, valid1, t)

  -- A bucket whose flow takes a record
  pub aggregate_flow-IsValid :
      (flow : List ℕ) (id : ℕ) (b : Bucket) (h : Hashtable)
      → InOrder 0 h.fields
      → All (IsField limit size) h.fields
      → IsFlow limit size flow
      → IsValid (IsFlow limit size) h
      → HasBucket (IsFlow limit size) id b h
      → (base' : List ℕ) × (aggregate_flow h.fields h.flow_reverse_mapper false b.flow flow
          ≡ ok (false, base'))
        × IsValid (IsFlow limit size) (save id (record b { flow = base' }) h)
        × HasBucket
            (IsFlow limit size)
            id
            (record b { flow = base' })
            (save id (record b { flow = base' }) h)
        × All (λ fi. IsSummed fi.info b.flow flow base') h.fields
  aggregate_flow-IsValid flow id b h o f (l, s, bytes) valid at =
      let (base', done, len, bytes', merged) =
        aggregate_flow-IsSummed h.fields h.flow_reverse_mapper limit size b.flow flow o f (record {
          base_fields = at.2.0;
          base_private = at.2.1;
          flow_fields = l;
          flow_private = s;
          base_bytes = at.2.2;
          flow_bytes = bytes;
        }) in
      let (valid1, at1) =
        save-IsValid (IsFlow limit size) id b (record b { flow = base' }) h valid at refl refl
          (omega (arith, at.2.0, len), omega (arith, at.2.1, len), bytes') in
      (base', done, valid1, at1, merged)

  -- A bucket in time takes the record.
  pub buffer_forward-Joined :
      (now : ℕ) (flow : List ℕ) (id : ℕ) (b : Bucket) (h : Hashtable)
      → InOrder 0 h.fields
      → All (IsField limit size) h.fields
      → IsFlow limit size flow
      → IsValid (IsFlow limit size) h
      → HasBucket (IsFlow limit size) id b h
      → equal_flow h.fields h.rev_key_mapper b.flow flow false ≡ ok true
      → is_late now b ≡ false
      → (h1 : Hashtable) × (buffer_forward now flow (some id) h ≡ ok (true, false, h1))
        × (h1.biflow_aggregation ≡ h.biflow_aggregation)
        × Stored h h1
        × Joined now flow h h1
  unfolding buffer_forward
  buffer_forward-Joined now flow id b h o f sound valid at equal early =
      let (base', done, valid1, at1, merged) =
        aggregate_flow-IsValid flow id b h o f sound valid at in
      let b1 : Bucket = record b { flow = base' } in
      let (h1, e, valid2, t2) =
        renew-IsValid (IsFlow limit size) now id b1 (save id b1 h) valid1 at1 in
      let t = Touched-trans id base' base' h (save id b1 h) h1 (save-Touched id b b1 h at.0) t2 in
      let (b2, e2, f2) = t.here in
      rw (load-some id b h at.0, early, done, e)
        (
          h1,
          refl,
          t.same_biflow,
          (valid2, t.same_sent, t.kept),
          (
            id,
            b,
            b2,
            at.0,
            equal,
            early,
            e2,
            subst (λ d. All (λ fi. IsSummed fi.info b.flow flow d) h.fields) (sym f2) merged,
            t.same_length,
            t.others,
          ),
        )

  -- A late bucket leaves the table, and the record has a new one.
  pub create_bucket-late :
      (now : ℕ) (flow : List ℕ) (hash id : ℕ) (b : Bucket) (h h1 : Hashtable)
      → IsFlow limit size flow
      → hash < h.htable_size
      → get_elem? h.store id ≡ some (some b)
      → IsValid (IsFlow limit size) h1
      → Touched id b.flow h h1
      → (h' : Hashtable) × (create_bucket now flow hash h1 ≡ ok h')
        × Stored h h'
        × Entered now flow hash h h'
  create_bucket-late now flow hash id b h h1 sound l e valid1 t =
      let (
        h',
        e',
        (valid', sent', kept'),
        (b', eb, same, inside, hashed, (chain, ec, first), keeps),
      ) =
        create_bucket-Entered now flow hash h1 valid1 sound
          (subst (λ n. hash < n) (sym t.same_size) l) in
      (
        h',
        e',
        (valid', sent' ∙ t.same_sent, λ j m. kept' j (t.kept j m)),
        (
          b',
          ap (get_elem? h'.store) (sym t.same_length) ∙ eb,
          same,
          inside,
          hashed,
          (chain, ec, subst (λ n. has n chain ≡ true) t.same_length first),
          λ j c ec.
              let (c1, e1, f1) = Touched-keeps id b h h1 e t j c ec in
              let (c2, e2, f2) = keeps j c1 e1 in (c2, e2, f2 ∙ f1),
        ),
      )
