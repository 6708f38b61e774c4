-- ===== src/Aggregator/Table/Expiry.antt =====
-- `BaseHashtable::expireFlows` (src/modules/ipfix/aggregator/BaseHashtable.cpp) takes the expired flows
-- at the head of the list of exports, and never reads a bucket that it destroyed.
use vermont.Base.{
  ℕ, ◌<◌, ◌≡◌, ◌≢◌, refl, sym, ◌∙◌, inl, inr, if◌then◌else◌, Bool, true, false, List, [], ◌∷◌, ◌++◌,
  map, append-nil, append_assoc, get_elem?, get_elem?-lt, set, get_elem?-set, get_elem?-set_ne,
  get_elem?-some, Option, none, some, Outcome, ok, All, Bool-cases, arith, subst,
}
use vermont.Aggregator.Table.{
  Bucket, Hashtable, load, save, unlink, is_alone, increment, decrement, remove_bucket,
  export_bucket, has_timed_out, expire_list, expire_flows,
}
use vermont.Aggregator.Table.Steps.{detached}
use vermont.Aggregator.Table.Moves.{destroyed}
use vermont.Aggregator.Table.Valid.{has, IsTable, All-has}

-- What holds of a table between two calls
abbrev pub IsValid : (List ℕ → Type 0) → Hashtable → Type 0
IsValid P h = IsTable P h.htable_size h.store h.buckets h.export_list

abbrev due_at : ℕ → Bool → Option (Option Bucket) → Bool
due_at now all none = false
due_at now all (some none) = false
due_at now all (some (some b)) = has_timed_out now all b

abbrev flow_of : Option (Option Bucket) → List ℕ
flow_of none = []
flow_of (some none) = []
flow_of (some (some b)) = b.flow

-- The bucket at the address is expired.
abbrev pub is_due : ℕ → Bool → List (Option Bucket) → ℕ → Bool
is_due now all store id = due_at now all (get_elem? store id)

abbrev pub flow_at : List (Option Bucket) → ℕ → List ℕ
flow_at store id = flow_of (get_elem? store id)

module _ {ℓ} {A : Type ℓ} (p : A → Bool) where
  abbrev pub take_while : List A → List A
  take_while [] = []
  take_while (x ∷ xs) = if p x then x ∷ take_while xs else []

  abbrev pub drop_while : List A → List A
  drop_while [] = []
  drop_while (x ∷ xs) = if p x then drop_while xs else x ∷ xs

-- Buckets that did not change are due as before, with the same flows.
due_same :
    (now : ℕ) (all : Bool) (store store' : List (Option Bucket)) (ids : List ℕ)
    → All (λ j. get_elem? store' j ≡ get_elem? store j) ids
    → (map (flow_at store') (take_while (is_due now all store') ids)
        ≡ map (flow_at store) (take_while (is_due now all store) ids))
      × (drop_while (is_due now all store') ids ≡ drop_while (is_due now all store) ids)
due_same now all store store' [] same = (refl, refl)
due_same now all store store' (id ∷ ids) (e, same) =
    let (rest, after) = due_same now all store store' ids same in
    elim (Bool-cases (is_due now all store id)) [
      | inl f ↦ rw (e, f, e, rest, after) (refl, refl)
      | inr f ↦ rw (e, f) (refl, refl)
    ]

pub load-some :
    (id : ℕ) (b : Bucket) (h : Hashtable) → get_elem? h.store id ≡ some (some b) → load id h ≡ ok b
unfolding load
load-some id b h e = rw e refl

-- A bucket out of the table, and the table without it
abbrev pub loose : Bucket → Bucket
loose b = record b { hash = 0; in_table = false }

abbrev pub removed : ℕ → Bucket → List ℕ → Hashtable → Hashtable
removed id b chain h = record h {
  store = set h.store id (some (loose b));
  buckets = set h.buckets b.hash (unlink id chain);
  stat_multi_entries =
      if is_alone chain then h.stat_multi_entries else decrement h.stat_multi_entries;
  stat_empty_buckets =
      if is_alone chain then increment h.stat_empty_buckets else h.stat_empty_buckets;
}

pub remove_bucket-removed :
    (id : ℕ) (b : Bucket) (chain : List ℕ) (h : Hashtable)
    → get_elem? h.store id ≡ some (some b)
    → get_elem? h.buckets b.hash ≡ some chain
    → remove_bucket id h ≡ ok (removed id b chain h)
unfolding remove_bucket save
remove_bucket-removed id b chain h e ec = rw (load-some id b h e, ec) refl

module _ (P : List ℕ → Type 0) (size now : ℕ) (all : Bool) where
  -- What the loop leaves
  abbrev Expired : List ℕ → Hashtable → Outcome Hashtable → Type 0
  Expired ids h r =
      (h' : Hashtable) × (r ≡ ok h')
      × IsTable P size h'.store h'.buckets h'.export_list
      × (h'.htable_size ≡ h.htable_size)
      × (h'.sent ≡ h.sent ++ map (flow_at h.store) (take_while (is_due now all h.store) ids))
      × (h'.export_list ≡ drop_while (is_due now all h.store) ids)

  -- A bucket of the list is removed from its chain, if it is in one.
  unchained :
      (id : ℕ) (ids : List ℕ) (b : Bucket) (h : Hashtable)
      → IsTable P size h.store h.buckets (id ∷ ids)
      → get_elem? h.store id ≡ some (some b)
      → b.hash < size
      → P b.flow
      → (h1 : Hashtable) × ((if b.in_table then remove_bucket id h else ok h) ≡ ok h1)
        × (b1 : Bucket) × (get_elem? h1.store id ≡ some (some b1))
        × (b1.in_table ≡ false)
        × IsTable P size h1.store h1.buckets (id ∷ ids)
        × ((j : ℕ) → id ≢ j → get_elem? h1.store j ≡ get_elem? h.store j)
        × (h1.htable_size ≡ h.htable_size)
        × (h1.sent ≡ h.sent)
  unchained id ids b h valid e g p = elim (Bool-cases b.in_table) [
    | inl t ↦
        let (chain, ec) =
          get_elem?-lt h.buckets b.hash (subst (λ n. b.hash < n) (sym valid.slots) g) in
        rw (t, remove_bucket-removed id b chain h e ec)
          (
            removed id b chain h,
            refl,
            loose b,
            get_elem?-set h.store id (some (loose b)) (get_elem?-some h.store id (some b) e),
            refl,
            detached P size h.store h.buckets (id ∷ ids) id b (loose b) chain valid e ec refl
                valid.some_slot p,
            λ j n. get_elem?-set_ne h.store id j (some (loose b)) n,
            refl,
            refl,
          )
    | inr t ↦ rw t (h, refl, b, e, t, valid, λ j n. refl, refl, refl)
  ]

  expire_list-Expired :
      (ids : List ℕ) (h : Hashtable)
      → h.export_list ≡ ids
      → IsTable P size h.store h.buckets ids
      → Expired ids h (expire_list now all ids h)
  unfolding expire_list export_bucket
  expire_list-Expired [] h l valid = (h, refl, rw l valid, refl, sym (append-nil h.sent), l)
  expire_list-Expired (id ∷ ids) h l valid =
      let (b, e, g, p) = valid.listed.0 in
      elim (Bool-cases (has_timed_out now all b)) [
        | inr f ↦
            rw (load-some id b h e, f, e, f) (h, refl, rw l valid, refl, sym (append-nil h.sent), l)
        | inl f ↦
            let (h1, e1, b1, s1, t1, valid1, same, size1, sent1) =
              unchained id ids b h valid e g p in
            let valid2 = destroyed P size h1.store h1.buckets id ids b1 valid1 s1 t1 in
            let (h', e', valid', size', sent', list') =
              expire_list-Expired ids (export_bucket id b ids h1) refl valid2 in
            let (flows, after) = due_same now all h.store (set h1.store id none) ids (
              All-has (λ j. get_elem? (set h1.store id none) j ≡ get_elem? h.store j) ids
                (λ j m. get_elem?-set_ne h1.store id j none (apart j m) ∙ same j (apart j m))) in
            rw (load-some id b h e, f, e1, e, f, e)
              (
                h',
                e',
                valid',
                size' ∙ size1,
                sent' ∙ rw (flows, sent1) (append_assoc h.sent (b.flow ∷ []) _),
                list' ∙ after,
              )
      ]
    where
      apart : (j : ℕ) → has j ids ≡ true → id ≢ j
      apart j m s =
          absurd (ground (arith, subst (λ i. has i ids ≡ true) (sym s) m, valid.distinct.0))

-- `expireFlows` on a valid table ends without a fault and leaves a valid table. It sends the flows of
-- the buckets at the head of the list, up to the first one that is not expired, in their order, and the
-- other buckets stay in the list.
pub expire_flows-IsValid :
    (P : List ℕ → Type 0) (now : ℕ) (all : Bool) (h : Hashtable)
    → IsValid P h
    → (h' : Hashtable) × (expire_flows now all h ≡ ok h')
      × IsValid P h'
      × (h'.sent
          ≡ h.sent ++ map (flow_at h.store) (take_while (is_due now all h.store) h.export_list))
      × (h'.export_list ≡ drop_while (is_due now all h.store) h.export_list)
unfolding expire_flows
expire_flows-IsValid P now all h valid =
    let (h', e, valid', size', sent', list') =
      expire_list-Expired P h.htable_size now all h.export_list h refl valid in
    (h', e, rw size' valid', sent', list')
