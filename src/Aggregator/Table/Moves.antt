-- ===== src/Aggregator/Table/Moves.antt =====
-- Changes that move a bucket: to the end of the list, out of the table's memory, and into it.
use mathlib.Core.Option.{none-ne-some, some-injective}
use vermont.Base.{
  get_elem?-append_cases, subst, ℕ, ◌<◌, ◌≡◌, ◌≢◌, sym, ap, ◌∙◌, inl, inr, true, false, List, [],
  ◌∷◌, ◌++◌, length, get_elem?, set, length-set, get_elem?-set, get_elem?-set_ne, get_elem?-some,
  get_elem?-append, get_elem?_unique, get_elem?-append_last, Option, none, some, All, All-append,
  All-map, Bool-cases, arith,
}
use vermont.Aggregator.Table.{Bucket, unlink}
use vermont.Aggregator.Table.Valid.{
  has, InChain, IsListed, IsTable, unlink-All, has-unlink, has-unlink_self, has-append, has-All,
  All-has, Distinct-unlink, Distinct-append,
}
use vermont.Aggregator.Table.Steps.{set-cases, same-or-not, not-in_other}

pub has-move :
    (id j : ℕ) (list : List ℕ) → has id list ≡ true → has j (unlink id list ++ id ∷ []) ≡ has j list
has-move id j list m = elim (same-or-not j id) [
  | inl s ↦
      rw (has-append j (unlink id list) (id ∷ []), s, has-unlink_self id list, m) (ground arith)
  | inr n ↦ rw (has-append j (unlink id list) (id ∷ []), has-unlink j id list n) (ground (arith, n))
]

module _ (P : List ℕ → Type 0) (size : ℕ) (store : List (Option Bucket))
    (buckets : List (List ℕ)) where
  -- A bucket goes to the end of the list.
  pub moved :
      (id : ℕ) (list : List ℕ)
      → IsTable P size store buckets list
      → has id list ≡ true
      → IsTable P size store buckets (unlink id list ++ id ∷ [])
  moved id list h m = record {
    chained = λ k c f.
        All-map (InChain store list k) (InChain store (unlink id list ++ id ∷ []) k)
          (λ j (b, e, t, g, l). (b, e, t, g, has-move id j list m ∙ l)) c (h.chained k c f);
    linked = h.linked;
    listed =
        All-append (IsListed P size store) (unlink id list) (id ∷ [])
          (All-map (λ j. IsListed P size store j × (j ≢ id)) (IsListed P size store) (λ j (l, _). l)
            (unlink id list) (unlink-All (IsListed P size store) id list h.listed))
          (has-All (IsListed P size store) id list h.listed m, tt);
    distinct =
        Distinct-append id (unlink id list) (has-unlink_self id list)
          (Distinct-unlink id list h.distinct);
    slots = h.slots;
    some_slot = h.some_slot;
  }

  -- The first bucket of the list, in no chain any more, is destroyed.
  pub destroyed :
      (id : ℕ) (ids : List ℕ) (b : Bucket)
      → IsTable P size store buckets (id ∷ ids)
      → get_elem? store id ≡ some (some b)
      → b.in_table ≡ false
      → IsTable P size (set store id none) buckets ids
  destroyed id ids b h e t = record {
    chained = λ k c f.
        All-map (InChain store (id ∷ ids) k) (InChain (set store id none) ids k)
          (λ j m.
            let n = not-in_other P size store (id ∷ ids) k id j b e (inl t) m in
            (m.0, get_elem?-set_ne store id j none n ∙ m.1, m.2, m.3, still j n m.4))
          c (h.chained k c f);
    linked = λ j c ch f u q. elim (set-cases store id j (some b) none (some c) e f) [
      | inl (_, same) ↦ absurd (none-ne-some c same)
      | inr (_, f') ↦ h.linked j c ch f' u q
    ];
    listed = All-has (IsListed P size (set store id none)) ids (λ j m.
        let (c, f, g, p) = has-All (IsListed P size store) j ids h.listed.1 m in
        (c, get_elem?-set_ne store id j none (apart j m) ∙ f, g, p));
    distinct = h.distinct.1;
    slots = h.slots;
    some_slot = h.some_slot;
  }
    where
      still : (j : ℕ) → id ≢ j → has j (id ∷ ids) ≡ true → has j ids ≡ true
      still j n m = ground (arith, n, m)

      apart : (j : ℕ) → has j ids ≡ true → id ≢ j
      apart j m s = absurd (ground (arith, subst (λ i. has i ids ≡ true) (sym s) m, h.distinct.0))

  -- A new bucket is the first of its chain and the last of the list.
  pub created :
      (list : List ℕ) (b : Bucket) (chain : List ℕ)
      → IsTable P size store buckets list
      → get_elem? buckets b.hash ≡ some chain
      → b.in_table ≡ true
      → P b.flow
      → IsTable P size
          (store ++ some b ∷ [])
          (set buckets b.hash (length store ∷ chain))
          (list ++ length store ∷ [])
  created list b chain h ec t p = record {
    chained = λ k c f. elim (same-or-not b.hash k) [
      | inl s ↦
          let there : get_elem? (set buckets b.hash (length store ∷ chain)) k
              ≡ some (length store ∷ chain) =
            subst
              (λ i.
                get_elem? (set buckets b.hash (length store ∷ chain)) i
                ≡ some (length store ∷ chain))
              s (get_elem?-set buckets b.hash (length store ∷ chain) slot) in
          subst (All (InChain store' list' k))
            (get_elem?_unique (set buckets b.hash (length store ∷ chain)) k (length store ∷ chain) c
              there f)
            (
              (b, last, t, s, has-append (length store) list (length store ∷ []) ∙ ground arith),
              All-map (InChain store list k) (InChain store' list' k) (kept k) chain
                  (h.chained k chain (ap (get_elem? buckets) (sym s) ∙ ec)),
            )
      | inr n ↦
          All-map (InChain store list k) (InChain store' list' k) (kept k) c
            (h.chained k c (sym (get_elem?-set_ne buckets b.hash k (length store ∷ chain) n) ∙ f))
    ];
    linked = λ j c ch f u q.
        elim (set-cases buckets b.hash c.hash chain (length store ∷ chain) ch ec q) [
          | inl (s, same) ↦
              subst (λ l. has j l ≡ true) same
                (elim (get_elem?-append_cases store (some b) j (some c) f) [
                  | inl f' ↦
                      let old =
                        h.linked j c chain f' u
                          (subst (λ k. get_elem? buckets k ≡ some chain) s ec) in
                      ground (arith, old)
                  | inr (last_one, _) ↦ ground (arith, last_one)
                ])
          | inr (n, q') ↦ elim (get_elem?-append_cases store (some b) j (some c) f) [
            | inl f' ↦ h.linked j c ch f' u q'
            | inr (_, now) ↦ absurd (n (ap (λ x. x.hash) (some-injective b c now)))
          ]
        ];
    listed =
        All-append (IsListed P size store') list (length store ∷ [])
          (All-map (IsListed P size store) (IsListed P size store')
            (λ j (c, f, g, q). (c, get_elem?-append store (some b ∷ []) j (some c) f, g, q)) list
            h.listed)
          ((b, last, subst (λ n. b.hash < n) h.slots slot, p), tt);
    distinct = Distinct-append (length store) list unlisted h.distinct;
    slots = length-set buckets b.hash (length store ∷ chain) ∙ h.slots;
    some_slot = h.some_slot;
  }
    where
      store' : List (Option Bucket)
      store' = store ++ some b ∷ []

      list' : List ℕ
      list' = list ++ length store ∷ []

      slot : b.hash < length buckets
      slot = get_elem?-some buckets b.hash chain ec

      last : get_elem? store' (length store) ≡ some (some b)
      last = get_elem?-append_last store (some b)

      kept : (k j : ℕ) → InChain store list k j → InChain store' list' k j
      kept k j (c, e, u, g, m) = (
        c,
        get_elem?-append store (some b ∷ []) j (some c) e,
        u,
        g,
        has-append j list (length store ∷ []) ∙ ground (arith, m),
      )

      unlisted : has (length store) list ≡ false
      unlisted = elim (Bool-cases (has (length store) list)) [
        | inr e ↦ e
        | inl e ↦
            let (c, f, _, _) = has-All (IsListed P size store) (length store) list h.listed e in
            let far : length store < length store =
              get_elem?-some store (length store) (some c) f in
            absurd (omega (arith, far))
      ]
