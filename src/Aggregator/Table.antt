-- ===== src/Aggregator/Table.antt =====
-- The hash table of flows: src/modules/ipfix/aggregator/BaseHashtable.cpp and FlowHashtable.cpp.
--
-- A bucket is an address in `store`, which holds `none` where a bucket was destroyed; reading one there
-- is a fault. A spill chain is the list of its buckets, linked by `prev` and `next` in the source, and
-- `export_list` that of the `listNode`s. Times are in seconds.
pub mod Valid
pub mod Steps
pub mod Moves
pub mod Expiry
pub mod Flush
pub mod Renewal
pub mod Search
pub mod Placing
pub mod Buffer
pub mod Dropped
use vermont.Base.{
  ℕ, suc, ◌+◌, ◌-◌, ◌%◌, ◌^◌, ◌==◌, ◌&&◌, ◌||◌, ltb, leb, not, if◌then◌else◌, Bool, true, false,
  List, [], ◌∷◌, ◌++◌, length, get_elem?, set, Option, none, some, Outcome, ok, out_of_bounds,
  ◌>>=◌, or_fault,
}
use vermont.Aggregator.Combine.{aggregate_flow}
use vermont.Aggregator.Field.{HashField}
use vermont.Aggregator.Key.{get_hash, equal_flow}
use vermont.Aggregator.Number.{read_at}
use vermont.Bloom.Key.{write_bytes}

-- `HashtableBucket`
pub record Bucket : Type 0 where
  pub inactive_expire_time : ℕ
  pub active_expire_time : ℕ
  pub flow : List ℕ
  pub force_expiry : Bool
  pub in_table : Bool
  pub hash : ℕ

-- `BaseHashtable`; `sent` holds the records that were exported, oldest first.
pub record Hashtable : Type 0 where
  pub fields : List HashField
  pub flow_reverse_mapper : List ℕ
  pub rev_key_mapper : List ℕ
  pub biflow_aggregation : Bool
  pub htable_size : ℕ
  pub inactive_timeout : ℕ
  pub active_timeout : ℕ
  pub store : List (Option Bucket)
  pub buckets : List (List ℕ)
  pub export_list : List ℕ
  pub sent : List (List ℕ)
  pub stat_records_received : ℕ
  pub stat_records_sent : ℕ
  pub stat_total_entries : ℕ
  pub stat_empty_buckets : ℕ
  pub stat_exported_buckets : ℕ
  pub stat_multi_entries : ℕ

-- `x++` and `x--` of a `uint32_t`
abbrev pub increment : ℕ → ℕ
increment x = (x + 1) % 2 ^ 32

abbrev pub decrement : ℕ → ℕ
decrement x = (x + 2 ^ 32 - 1) % 2 ^ 32

-- The bucket at an address
abbrev pub bucket_at : Option (Option Bucket) → Outcome Bucket
bucket_at none = out_of_bounds
bucket_at (some none) = out_of_bounds
bucket_at (some (some b)) = ok b

unfoldable pub load : ℕ → Hashtable → Outcome Bucket
load id h = bucket_at (get_elem? h.store id)

unfoldable pub save : ℕ → Bucket → Hashtable → Hashtable
save id b h = record h { store = set h.store id (some b) }

-- A chain, or the list, without a bucket
unfoldable pub unlink : ℕ → List ℕ → List ℕ
unlink id [] = []
unlink id (k ∷ ks) = let rest = unlink id ks in if k == id then rest else k ∷ rest

-- `!bucket->next && !bucket->prev`
abbrev pub is_alone : List ℕ → Bool
is_alone [] = true
is_alone (k ∷ []) = true
is_alone (k ∷ l ∷ ks) = false

-- `removeBucket`
unfoldable pub remove_bucket : ℕ → Hashtable → Outcome Hashtable
remove_bucket id h = do
  b ← load id h
  chain ← or_fault (get_elem? h.buckets b.hash)
  ok (
      save id (record b { hash = 0; in_table = false })
        (record h {
          buckets = set h.buckets b.hash (unlink id chain);
          stat_multi_entries =
              if is_alone chain then h.stat_multi_entries else decrement h.stat_multi_entries;
          stat_empty_buckets =
              if is_alone chain then increment h.stat_empty_buckets else h.stat_empty_buckets;
        }))

-- `exportList.remove(bucket->listNode); exportList.push(bucket->listNode);`
unfoldable pub move_back : ℕ → Hashtable → Hashtable
move_back id h = record h { export_list = unlink id h.export_list ++ id ∷ [] }

-- The loop of `lookupBucket` over a chain
unfoldable pub lookup_chain : List ℕ → List ℕ → Bool → Hashtable → Outcome (Option ℕ)
lookup_chain [] flow reverse h = ok none
lookup_chain (id ∷ ids) flow reverse h =
    let rest = lookup_chain ids flow reverse h in
    do
      b ← load id h
      equal ← equal_flow h.fields h.rev_key_mapper b.flow flow reverse
      if equal then ok (some id) else rest

-- `lookupBucket`
unfoldable pub lookup_bucket : ℕ → List ℕ → Bool → Hashtable → Outcome (Option ℕ)
lookup_bucket hash flow reverse h = do
  chain ← or_fault (get_elem? h.buckets hash)
  lookup_chain chain flow reverse h

-- The loop of `reverseFlowBucket` over the fields from the `i`-th on
unfoldable pub reverse_fields :
    List HashField → List ℕ → ℕ → List HashField → List ℕ → Outcome (List ℕ)
reverse_fields all mapper i [] flow = ok flow
reverse_fields all mapper i (fi ∷ fis) flow = do
  k ← or_fault (get_elem? mapper i)
  fi2 ← or_fault (get_elem? all k)
  flow' ←
      (if i == k then ok flow else (do
        src ← read_at flow fi.info.offset fi.info.type.len
        dst ← read_at flow fi2.info.offset fi.info.type.len
        half ← write_bytes flow fi.info.offset dst
        write_bytes half fi2.info.offset src))
  reverse_fields all mapper (suc i) fis flow'

-- `reverseFlowBucket`
unfoldable pub reverse_flow_bucket : ℕ → Hashtable → Outcome Hashtable
reverse_flow_bucket id h = do
  b ← load id h
  flow ← reverse_fields h.fields h.flow_reverse_mapper 0 h.fields b.flow
  ok (save id (record b { flow = flow }) h)

-- `unix_now.tv_sec > bucket->inactiveExpireTime || unix_now.tv_sec > bucket->activeExpireTime`
abbrev pub is_late : ℕ → Bucket → Bool
is_late now b = ltb b.inactive_expire_time now || ltb b.active_expire_time now

-- Both branches of an expired flow: `forceExpiry` and `removeBucket`
unfoldable pub force_expiry_of : ℕ → Bucket → Hashtable → Outcome Hashtable
force_expiry_of id b h = remove_bucket id (save id (record b { force_expiry = true }) h)

-- The new inactive timeout, and what follows where the active one is later
unfoldable pub renew : ℕ → ℕ → Hashtable → Outcome Hashtable
renew now id h = do
  b ← load id h
  let b' = record b { inactive_expire_time = now + h.inactive_timeout }
  if ltb b'.inactive_expire_time b'.active_expire_time
      then remove_bucket id (move_back id (save id b' h))
      else ok (save id b' h)

-- The branches for a flow in its own direction: whether it was found, whether an expiry was forced
unfoldable pub buffer_forward :
    ℕ → List ℕ → Option ℕ → Hashtable → Outcome (Bool × Bool × Hashtable)
buffer_forward now flow none h = ok (false, false, h)
buffer_forward now flow (some id) h = do
  b ← load id h
  if is_late now b then (do h' ← force_expiry_of id b h; ok (false, true, h')) else (do
    (_, flow') ← aggregate_flow h.fields h.flow_reverse_mapper false b.flow flow
    h' ← renew now id (save id (record b { flow = flow' }) h)
    ok (true, false, h'))

-- A flow that is turned around and put into the chain of its new key
unfoldable pub turn_around : (ℕ → ℕ) → ℕ → ℕ → ℕ → Hashtable → Outcome Hashtable
turn_around table now rhash id h = do
  h1 ← reverse_flow_bucket id h
  old ← or_fault (get_elem? h1.buckets rhash)
  let h2 = record h1 { buckets = set h1.buckets rhash (unlink id old) }
  b ← load id h2
  nhash ← get_hash table h.htable_size h.fields h.rev_key_mapper b.flow false
  chain ← or_fault (get_elem? h2.buckets nhash)
  renew now id (
      save id (record b { hash = nhash })
        (record h2 { buckets = set h2.buckets nhash (id ∷ chain) }))

-- The branches for a flow in the reverse direction
unfoldable pub buffer_reverse :
    (ℕ → ℕ) → ℕ → List ℕ → ℕ → Option ℕ → Hashtable → Outcome (Bool × Bool × Hashtable)
buffer_reverse table now flow rhash none h = ok (false, false, h)
buffer_reverse table now flow rhash (some id) h = do
  b ← load id h
  if is_late now b then (do h' ← force_expiry_of id b h; ok (false, true, h')) else (do
    (must_reverse, flow') ← aggregate_flow h.fields h.flow_reverse_mapper true b.flow flow
    let h1 = save id (record b { flow = flow' }) h
    h' ← (if must_reverse then turn_around table now rhash id h1 else ok h1)
    ok (true, false, h'))

-- `createBucket`, with its place in the table and in the list
unfoldable pub create_bucket : ℕ → List ℕ → ℕ → Hashtable → Outcome Hashtable
create_bucket now flow nhash h = do
  chain ← or_fault (get_elem? h.buckets nhash)
  let id = length h.store
  ok (record h {
    store =
        h.store
        ++ some (record {
          inactive_expire_time = now + h.inactive_timeout;
          active_expire_time = now + h.active_timeout;
          flow = flow;
          force_expiry = false;
          in_table = true;
          hash = nhash;
        })
          ∷ [];
    buckets = set h.buckets nhash (id ∷ chain);
    export_list = h.export_list ++ id ∷ [];
    stat_total_entries = increment h.stat_total_entries;
  })

-- `bufferDataBlock`
unfoldable pub buffer_data_block : (ℕ → ℕ) → ℕ → List ℕ → Hashtable → Outcome Hashtable
buffer_data_block table now flow h = do
  let h0 = record h { stat_records_received = increment h.stat_records_received }
  nhash ← get_hash table h0.htable_size h0.fields h0.rev_key_mapper flow false
  found ← lookup_bucket nhash flow false h0
  (flowfound, forced, h1) ← buffer_forward now flow found h0
  (flowfound', forced', h2) ←
      (if h1.biflow_aggregation && (not flowfound && not forced)
        then (do
          rhash ← get_hash table h1.htable_size h1.fields h1.rev_key_mapper flow true
          found' ← lookup_bucket rhash flow true h1
          buffer_reverse table now flow rhash found' h1)
        else ok (flowfound, forced, h1))
  if not flowfound' || forced' then create_bucket now flow nhash h2 else ok h2

-- `exportBucket` and `destroyBucket` of the first bucket of the list; `ids` are those behind it.
unfoldable pub export_bucket : ℕ → Bucket → List ℕ → Hashtable → Hashtable
export_bucket id b ids h = record h {
  store = set h.store id none;
  export_list = ids;
  sent = h.sent ++ b.flow ∷ [];
  stat_records_sent = increment h.stat_records_sent;
  stat_exported_buckets = increment h.stat_exported_buckets;
  stat_total_entries = decrement h.stat_total_entries;
}

-- The test of `expireFlows`
abbrev pub has_timed_out : ℕ → Bool → Bucket → Bool
has_timed_out now all b = leb b.inactive_expire_time now || (leb b.active_expire_time now || all)

-- The loop of `expireFlows` over the list
unfoldable pub expire_list : ℕ → Bool → List ℕ → Hashtable → Outcome Hashtable
expire_list now all [] h = ok h
expire_list now all (id ∷ ids) h = do
  b ← load id h
  if has_timed_out now all b
      then (do
        h' ← (if b.in_table then remove_bucket id h else ok h)
        expire_list now all ids (export_bucket id b ids h'))
      else ok h

-- `expireFlows`
unfoldable pub expire_flows : ℕ → Bool → Hashtable → Outcome Hashtable
expire_flows now all h = expire_list now all h.export_list h
