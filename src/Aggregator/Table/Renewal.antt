-- ===== src/Aggregator/Table/Renewal.antt =====
-- What a record does to the bucket of its flow: its data, its times and its place.
use vermont.Base.{
  ℕ, ◌+◌, ◌<◌, ◌≡◌, ◌≢◌, refl, sym, ◌∙◌, inl, inr, true, List, length, get_elem?, get_elem?-lt,
  length-set, get_elem?-set, get_elem?-set_ne, get_elem?-some, some, Outcome, ok, Bool-cases, subst,
  ltb,
}
use vermont.Aggregator.Table.{
  Bucket, Hashtable, save, remove_bucket, move_back, renew, force_expiry_of,
}
use vermont.Aggregator.Table.Expiry.{IsValid, load-some, loose, removed, remove_bucket-removed}
use vermont.Aggregator.Table.Steps.{detached, saved}
use vermont.Aggregator.Table.Moves.{moved, has-move}
use vermont.Aggregator.Table.Valid.{has}

-- The bucket has another flow, and the other buckets, the records sent and the settings are the same.
pub record Touched (id : ℕ) (flow : List ℕ) (h h' : Hashtable) : Type 0 where
  pub here : (b : Bucket) × (get_elem? h'.store id ≡ some (some b)) × (b.flow ≡ flow)
  pub others : (j : ℕ) → id ≢ j → get_elem? h'.store j ≡ get_elem? h.store j
  pub same_length : length h'.store ≡ length h.store
  pub kept : (j : ℕ) → has j h.export_list ≡ true → has j h'.export_list ≡ true
  pub same_sent : h'.sent ≡ h.sent
  pub same_size : h'.htable_size ≡ h.htable_size
  pub same_biflow : h'.biflow_aggregation ≡ h.biflow_aggregation

pub Touched-trans :
    (id : ℕ) (f g : List ℕ) (h h1 h2 : Hashtable)
    → Touched id f h h1
    → Touched id g h1 h2
    → Touched id g h h2
Touched-trans id f g h h1 h2 s t = record {
  here = t.here;
  others = λ j n. t.others j n ∙ s.others j n;
  same_length = t.same_length ∙ s.same_length;
  kept = λ j m. t.kept j (s.kept j m);
  same_sent = t.same_sent ∙ s.same_sent;
  same_size = t.same_size ∙ s.same_size;
  same_biflow = t.same_biflow ∙ s.same_biflow;
}

pub save-Touched :
    (id : ℕ) (b b' : Bucket) (h : Hashtable)
    → get_elem? h.store id ≡ some (some b)
    → Touched id b'.flow h (save id b' h)
unfolding save
save-Touched id b b' h e = record {
  here = (b', get_elem?-set h.store id (some b') (get_elem?-some h.store id (some b) e), refl);
  others = λ j n. get_elem?-set_ne h.store id j (some b') n;
  same_length = length-set h.store id (some b');
  kept = λ j m. m;
  same_sent = refl;
  same_size = refl;
  same_biflow = refl;
}

removed-Touched :
    (id : ℕ) (b : Bucket) (chain : List ℕ) (h : Hashtable)
    → get_elem? h.store id ≡ some (some b)
    → Touched id b.flow h (removed id b chain h)
removed-Touched id b chain h e = record {
  here = (
    loose b,
    get_elem?-set h.store id (some (loose b)) (get_elem?-some h.store id (some b) e),
    refl,
  );
  others = λ j n. get_elem?-set_ne h.store id j (some (loose b)) n;
  same_length = length-set h.store id (some (loose b));
  kept = λ j m. m;
  same_sent = refl;
  same_size = refl;
  same_biflow = refl;
}

module _ (P : List ℕ → Type 0) where
  -- A bucket of a valid table that is on its list
  abbrev pub HasBucket : ℕ → Bucket → Hashtable → Type 0
  HasBucket id b h =
      (get_elem? h.store id ≡ some (some b))
      × (b.hash < h.htable_size)
      × P b.flow
      × (has id h.export_list ≡ true)

  abbrev pub Changed : ℕ → List ℕ → Hashtable → Outcome Hashtable → Type 0
  Changed id flow h r = (h' : Hashtable) × (r ≡ ok h') × IsValid P h' × Touched id flow h h'

  pub save-IsValid :
      (id : ℕ) (b b' : Bucket) (h : Hashtable)
      → IsValid P h
      → HasBucket id b h
      → b'.hash ≡ b.hash
      → b'.in_table ≡ b.in_table
      → P b'.flow
      → IsValid P (save id b' h) × HasBucket id b' (save id b' h)
  unfolding save
  save-IsValid id b b' h valid (e, g, p, m) eh et p' = (
    saved P h.htable_size h.store h.buckets h.export_list id b b' valid e
        (subst (λ n. n < h.htable_size) (sym eh) g) eh et p',
    (
      get_elem?-set h.store id (some b') (get_elem?-some h.store id (some b) e),
      subst (λ n. n < h.htable_size) (sym eh) g,
      p',
      m,
    ),
  )

  pub remove_bucket-IsValid :
      (id : ℕ) (b : Bucket) (h : Hashtable)
      → IsValid P h
      → HasBucket id b h
      → Changed id b.flow h (remove_bucket id h)
  remove_bucket-IsValid id b h valid (e, g, p, m) =
      let (chain, ec) =
        get_elem?-lt h.buckets b.hash (subst (λ n. b.hash < n) (sym valid.slots) g) in
      (
        removed id b chain h,
        remove_bucket-removed id b chain h e ec,
        detached P h.htable_size h.store h.buckets h.export_list id b (loose b) chain valid e ec
            refl valid.some_slot p,
        removed-Touched id b chain h e,
      )

  pub force_expiry_of-IsValid :
      (id : ℕ) (b : Bucket) (h : Hashtable)
      → IsValid P h
      → HasBucket id b h
      → Changed id b.flow h (force_expiry_of id b h)
  unfolding force_expiry_of
  force_expiry_of-IsValid id b h valid at =
      let b' : Bucket = record b { force_expiry = true } in
      let (valid1, at1) = save-IsValid id b b' h valid at refl refl at.2 in
      let (h', e, valid', t) = remove_bucket-IsValid id b' (save id b' h) valid1 at1 in
      (
        h',
        e,
        valid',
        Touched-trans id b.flow b.flow h (save id b' h) h' (save-Touched id b b' h at.0) t,
      )

  pub move_back-IsValid :
      (id : ℕ) (b : Bucket) (h : Hashtable)
      → IsValid P h
      → HasBucket id b h
      → IsValid P (move_back id h)
        × HasBucket id b (move_back id h)
        × Touched id b.flow h (move_back id h)
  unfolding move_back
  move_back-IsValid id b h valid (e, g, p, m) = (
    moved P h.htable_size h.store h.buckets id h.export_list valid m,
    (e, g, p, has-move id id h.export_list m ∙ m),
    record {
      here = (b, e, refl);
      others = λ j n. refl;
      same_length = refl;
      kept = λ j k. has-move id j h.export_list m ∙ k;
      same_sent = refl;
      same_size = refl;
      same_biflow = refl;
    },
  )

  -- `renew` keeps the table valid and the flow as it is.
  pub renew-IsValid :
      (now id : ℕ) (b : Bucket) (h : Hashtable)
      → IsValid P h
      → HasBucket id b h
      → Changed id b.flow h (renew now id h)
  unfolding renew
  renew-IsValid now id b h valid at =
      let b' : Bucket = record b { inactive_expire_time = now + h.inactive_timeout } in
      let h1 : Hashtable = save id b' h in
      let (valid1, at1) = save-IsValid id b b' h valid at refl refl at.2 in
      let t1 : Touched id b.flow h h1 = save-Touched id b b' h at.0 in
      elim (Bool-cases (ltb b'.inactive_expire_time b'.active_expire_time)) [
        | inr e ↦ rw (load-some id b h at.0, e) (h1, refl, valid1, t1)
        | inl e ↦
            let (valid2, at2, t2) = move_back-IsValid id b' h1 valid1 at1 in
            let (h', e', valid', t3) = remove_bucket-IsValid id b' (move_back id h1) valid2 at2 in
            rw (load-some id b h at.0, e)
              (
                h',
                e',
                valid',
                Touched-trans id b.flow b.flow h h1 h' t1
                    (Touched-trans id b.flow b.flow h1 (move_back id h1) h' t2 t3),
              )
      ]
