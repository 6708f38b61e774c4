-- ===== src/Aggregator/Table/Search.antt =====
-- A search of the table ends at a bucket of its chain, or finds none: `lookupBucket`
-- (src/modules/ipfix/aggregator/FlowHashtable.cpp).
use vermont.Base.{
  ℕ, ◌≤◌, ◌≡◌, refl, ap, ◌∙◌, inl, inr, true, false, List, [], ◌∷◌, length, get_elem?, Option, none,
  some, ok, All, All-map, Bool-cases, arith,
}
use vermont.Aggregator.Combine.Fields.{IsField}
use vermont.Aggregator.Field.{HashField}
use vermont.Aggregator.Key.{equal_flow}
use vermont.Aggregator.Key.Total.{FitsIn, equal_flow-within}
use vermont.Aggregator.Number.Memory.{IsBytes}
use vermont.Aggregator.Table.{Bucket, Hashtable, lookup_chain, lookup_bucket}
use vermont.Aggregator.Table.Expiry.{IsValid, load-some}
use vermont.Aggregator.Table.Renewal.{HasBucket}
use vermont.Aggregator.Table.Valid.{has-All, InChain, IsListed}

-- A flow of a template of `limit` bytes, and `size` bytes with the private data
abbrev pub IsFlow : ℕ → ℕ → List ℕ → Type 0
IsFlow limit size flow = (limit ≤ length flow) × (size ≤ length flow) × IsBytes flow

module _ (limit size : ℕ) where
  pub fields-FitsIn :
      (flow : List ℕ) (fields : List HashField)
      → limit ≤ length flow
      → All (IsField limit size) fields
      → All (FitsIn flow) fields
  fields-FitsIn flow fields l f =
      All-map (IsField limit size) (FitsIn flow) (λ fi p. omega (arith, p.placed.inside, l)) fields
        f

  -- What a search has found: a bucket of the chain with an equal flow, or that there is none
  abbrev pub Found : Hashtable → List ℕ → List ℕ → Option ℕ → Type 0
  Found h flow chain none =
      All
        (λ id.
          (b : Bucket) × (get_elem? h.store id ≡ some (some b))
          × (equal_flow h.fields h.rev_key_mapper b.flow flow false ≡ ok false))
        chain
  Found h flow chain (some id) =
      (b : Bucket) × HasBucket (IsFlow limit size) id b h
      × (equal_flow h.fields h.rev_key_mapper b.flow flow false ≡ ok true)

  module _ (h : Hashtable) (flow : List ℕ) (f : All (IsField limit size) h.fields)
      (valid : IsValid (IsFlow limit size) h) (sound : IsFlow limit size flow) where
    lookup_chain-Found :
        (k : ℕ) (chain : List ℕ)
        → All (InChain h.store h.export_list k) chain
        → (r : Option ℕ) × (lookup_chain chain flow false h ≡ ok r) × Found h flow chain r
    unfolding lookup_chain
    lookup_chain-Found k [] c = (none, refl, tt)
    lookup_chain-Found k (id ∷ ids) ((_, _, _, _, m), cs) =
        let (b, e, g, p) =
          has-All (IsListed (IsFlow limit size) h.htable_size h.store) id h.export_list valid.listed
            m in
        let (equal, ee) =
          equal_flow-within h.fields h.rev_key_mapper b.flow flow
            (fields-FitsIn b.flow h.fields p.0 f) (fields-FitsIn flow h.fields sound.0 f) in
        let (r, er, found) = lookup_chain-Found k ids cs in
        elim (Bool-cases equal) [
          | inl t ↦ rw (load-some id b h e, ee, t) (some id, refl, (b, (e, g, p, m), ee ∙ ap ok t))
          | inr t ↦ rw (load-some id b h e, ee, t) (further id ids b r er (e, ee ∙ ap ok t) found)
        ]
      where
        further :
            (id : ℕ) (ids : List ℕ) (b : Bucket) (r : Option ℕ)
            → lookup_chain ids flow false h ≡ ok r
            → (get_elem? h.store id ≡ some (some b))
              × (equal_flow h.fields h.rev_key_mapper b.flow flow false ≡ ok false)
            → Found h flow ids r
            → (r' : Option ℕ) × (lookup_chain ids flow false h ≡ ok r') × Found h flow (id ∷ ids) r'
        further id ids b none e (q, n) found = (none, e, ((b, q, n), found))
        further id ids b (some j) e q found = (some j, e, found)

    pub lookup_bucket-Found :
        (k : ℕ) (chain : List ℕ)
        → get_elem? h.buckets k ≡ some chain
        → (r : Option ℕ) × (lookup_bucket k flow false h ≡ ok r) × Found h flow chain r
    unfolding lookup_bucket
    lookup_bucket-Found k chain e = rw e (lookup_chain-Found k chain (valid.chained k chain e))
