-- ===== src/Aggregator/Table/Steps.antt =====
-- The changes that the table's operations are made of, and that each of them keeps `IsTable`.
use mathlib.Core.Option.{some-injective}
use vermont.Base.{
  true, subst, ℕ, ◌<◌, ◌==◌, ◌≡◌, ◌≢◌, sym, ap, ◌∙◌, ◌⊎◌, inl, inr, false, List, get_elem?, set,
  length-set, get_elem?-set, get_elem?-set_ne, get_elem?-some, get_elem?_unique, Option, some, All,
  All-map, Bool-cases, arith,
}
use vermont.Aggregator.Table.{Bucket, unlink}
use vermont.Aggregator.Table.Valid.{has, has-unlink, InChain, IsListed, IsTable, unlink-All}

-- An address is one of two, or the numbers differ.
pub same-or-not : (i j : ℕ) → (i ≡ j) ⊎ (i ≢ j)
same-or-not i j = elim (Bool-cases (i == j)) [
  | inl e ↦ inl (ground (arith, e))
  | inr e ↦ inr (λ q. absurd (ground (arith, e, q)))
]

-- An element after a write is the new one, or an old one elsewhere.
pub set-cases {ℓ} :
    {A : Type ℓ} (xs : List A) (i j : ℕ) (old new c : A)
    → get_elem? xs i ≡ some old
    → get_elem? (set xs i new) j ≡ some c
    → ((i ≡ j) × (new ≡ c)) ⊎ ((i ≢ j) × (get_elem? xs j ≡ some c))
set-cases xs i j old new c e f = elim (same-or-not i j) [
  | inl s ↦ inl (
    s,
    get_elem?_unique (set xs i new) i new c (get_elem?-set xs i new (get_elem?-some xs i old e))
        (subst (λ k. get_elem? (set xs i new) k ≡ some c) (sym s) f),
  )
  | inr n ↦ inr (n, sym (get_elem?-set_ne xs i j new n) ∙ f)
]

module _ (P : List ℕ → Type 0) (size : ℕ) (store : List (Option Bucket)) where
  InChain-set :
      (list : List ℕ) (k id j : ℕ) (v : Option Bucket)
      → id ≢ j
      → InChain store list k j
      → InChain (set store id v) list k j
  InChain-set list k id j v n (b, e, t, g, m) = (b, get_elem?-set_ne store id j v n ∙ e, t, g, m)

  IsListed-set :
      (id j : ℕ) (b b0 : Bucket)
      → get_elem? store id ≡ some (some b)
      → b0.hash < size
      → P b0.flow
      → IsListed P size store j
      → IsListed P size (set store id (some b0)) j
  IsListed-set id j b b0 e g p (c, f, l, q) = elim (same-or-not id j) [
    | inl s ↦ (
      b0,
      subst (λ i. get_elem? (set store id (some b0)) i ≡ some (some b0)) s
          (get_elem?-set store id (some b0) (get_elem?-some store id (some b) e)),
      g,
      p,
    )
    | inr n ↦ (c, get_elem?-set_ne store id j (some b0) n ∙ f, l, q)
  ]

  pub one_bucket :
      (id : ℕ) (b c : Bucket)
      → get_elem? store id ≡ some (some b)
      → get_elem? store id ≡ some (some c)
      → b ≡ c
  one_bucket id b c e f = some-injective b c (get_elem?_unique store id (some b) (some c) e f)

  -- A bucket of one chain is not in the others.
  pub not-in_other :
      (list : List ℕ) (k id j : ℕ) (b : Bucket)
      → get_elem? store id ≡ some (some b)
      → (b.in_table ≡ false) ⊎ (b.hash ≢ k)
      → InChain store list k j
      → id ≢ j
  not-in_other list k id j b e (inl f) (c, ec, t, g, m) s =
      let same : c ≡ b = one_bucket j c b ec (ap (get_elem? store) (sym s) ∙ e) in
      absurd (ground (arith, f, t, ap (λ x. x.in_table) same))
  not-in_other list k id j b e (inr n) (c, ec, t, g, m) s =
      let same : c ≡ b = one_bucket j c b ec (ap (get_elem? store) (sym s) ∙ e) in
      n (ap (λ x. x.hash) (sym same) ∙ g)

  module _ (buckets : List (List ℕ)) (list : List ℕ) where
    -- `removeBucket`: the bucket `b` becomes `b0`.
    pub detached :
        (id : ℕ) (b b0 : Bucket) (chain : List ℕ)
        → IsTable P size store buckets list
        → get_elem? store id ≡ some (some b)
        → get_elem? buckets b.hash ≡ some chain
        → b0.in_table ≡ false
        → b0.hash < size
        → P b0.flow
        → IsTable P size (set store id (some b0)) (set buckets b.hash (unlink id chain)) list
    detached id b b0 chain h e ec t0 g p = record {
      chained = λ k c f. elim (same-or-not b.hash k) [
        | inl s ↦
            let there : get_elem? (set buckets b.hash (unlink id chain)) k
                ≡ some (unlink id chain) =
              subst
                (λ i. get_elem? (set buckets b.hash (unlink id chain)) i ≡ some (unlink id chain)) s
                (get_elem?-set buckets b.hash (unlink id chain)
                  (get_elem?-some buckets b.hash chain ec)) in
            subst (All (InChain (set store id (some b0)) list k))
              (get_elem?_unique (set buckets b.hash (unlink id chain)) k (unlink id chain) c there
                f)
              (All-map (λ j. InChain store list k j × (j ≢ id))
                (InChain (set store id (some b0)) list k)
                (λ j (m, n). InChain-set list k id j (some b0) (λ q. n (sym q)) m) (unlink id chain)
                (unlink-All (InChain store list k) id chain
                  (h.chained k chain (ap (get_elem? buckets) (sym s) ∙ ec))))
        | inr n ↦
            All-map (InChain store list k) (InChain (set store id (some b0)) list k)
              (λ j m. InChain-set list k id j (some b0) (not-in_other list k id j b e (inr n) m) m)
              c (h.chained k c (sym (get_elem?-set_ne buckets b.hash k (unlink id chain) n) ∙ f))
      ];
      listed =
          All-map (IsListed P size store) (IsListed P size (set store id (some b0)))
            (λ j m. IsListed-set id j b b0 e g p m) list h.listed;
      linked = λ j c ch f t q. elim (set-cases store id j (some b) (some b0) (some c) e f) [
        | inl (s, same) ↦
            absurd (ground (arith, t0, t, ap (λ x. x.in_table) (some-injective b0 c same)))
        | inr (n, f') ↦ elim (set-cases buckets b.hash c.hash chain (unlink id chain) ch ec q) [
          | inl (s, same) ↦
              subst (λ l. has j l ≡ true) same
                (has-unlink j id chain (λ r. n (sym r))
                  ∙ h.linked j c chain f' t (subst (λ k. get_elem? buckets k ≡ some chain) s ec))
          | inr (_, q') ↦ h.linked j c ch f' t q'
        ]
      ];
      distinct = h.distinct;
      slots = length-set buckets b.hash (unlink id chain) ∙ h.slots;
      some_slot = h.some_slot;
    }

    -- A change of a bucket's data and times
    pub saved :
        (id : ℕ) (b b0 : Bucket)
        → IsTable P size store buckets list
        → get_elem? store id ≡ some (some b)
        → b0.hash < size
        → b0.hash ≡ b.hash
        → b0.in_table ≡ b.in_table
        → P b0.flow
        → IsTable P size (set store id (some b0)) buckets list
    saved id b b0 h e g eh et p = record {
      chained = λ k c f.
          All-map (InChain store list k) (InChain (set store id (some b0)) list k)
            (λ j m. elim (same-or-not id j) [
              | inl s ↦ (
                b0,
                subst (λ i. get_elem? (set store id (some b0)) i ≡ some (some b0)) s
                    (get_elem?-set store id (some b0) (get_elem?-some store id (some b) e)),
                et ∙ ap (λ x. x.in_table) (same_bucket j s m) ∙ m.2,
                eh ∙ ap (λ x. x.hash) (same_bucket j s m) ∙ m.3,
                m.4,
              )
              | inr n ↦ InChain-set list k id j (some b0) n m
            ])
            c (h.chained k c f);
      listed =
          All-map (IsListed P size store) (IsListed P size (set store id (some b0)))
            (λ j m. IsListed-set id j b b0 e g p m) list h.listed;
      linked = λ j c ch f t q. elim (set-cases store id j (some b) (some b0) (some c) e f) [
        | inl (s, same) ↦
            let now : b0 ≡ c = some-injective b0 c same in
            h.linked j b ch (ap (get_elem? store) (sym s) ∙ e)
              (sym et ∙ ap (λ x. x.in_table) now ∙ t)
              (subst (λ k. get_elem? buckets k ≡ some ch) (sym (ap (λ x. x.hash) now) ∙ eh) q)
        | inr (n, f') ↦ h.linked j c ch f' t q
      ];
      distinct = h.distinct;
      slots = h.slots;
      some_slot = h.some_slot;
    }
      where
        same_bucket : {k : ℕ} (j : ℕ) → id ≡ j → (m : InChain store list k j) → b ≡ m.0
        same_bucket j s (c, ec, _, _, _) = one_bucket j b c (ap (get_elem? store) (sym s) ∙ e) ec
