-- ===== src/Aggregator/Tests.antt =====
-- Tests of the aggregator, and the theorems at concrete inputs: a template of a source address and a
-- count of packets, and a table of two slots with one flow.
use mathlib.Core.Option.{some-injective}
use vermont.Base.{
  ap, sym, subst, ℕ, zero, suc, ◌+◌, ◌*◌, ◌≡◌, refl, inl, true, false, List, [], ◌∷◌, map,
  get_elem?, some, ok, All, arith,
}
use vermont.Aggregator.Combine.{operation, plain_operation, update_bits}
use vermont.Aggregator.Combine.Fields.{IsField}
use vermont.Aggregator.Field.{HashField, one_of, is_to_be_aggregated}
use vermont.Aggregator.Key.{get_hash, equal_flow, equal_fields, key_field, equal_raw, same_bytes}
use vermont.Aggregator.Key.SameHash.{SameLengths, get_hash-equal_flow}
use vermont.Aggregator.Number.Memory.{IsBytes}
use vermont.Bloom.Cells.{write_at}
use vermont.Bloom.Key.{write_bytes}
use vermont.Aggregator.Table.{Bucket, Hashtable, expire_flows, buffer_forward}
use vermont.Aggregator.Table.Expiry.{
  IsValid, take_while, drop_while, is_due, flow_at, expire_flows-IsValid,
}
use vermont.Aggregator.Table.Flush.{Flushed, expire_flows-all, expire_flows_later}
use vermont.Aggregator.Table.Dropped.{IsLost, buffer_forward-IsLost}
use vermont.Aggregator.Table.Search.{IsFlow}
use vermont.Aggregator.Table.Valid.{has, InChain}
use vermont.Parser.Bytes.{read_u8}

abbrev address : HashField
address = record {
  info = record {
    type = record { id = 8; enterprise = 0; len = 4 };
    offset = 0;
    is_variable_length = false;
  };
  priv_data_offset = 0;
}

abbrev packets : HashField
packets = record {
  info = record {
    type = record { id = 2; enterprise = 0; len = 8 };
    offset = 4;
    is_variable_length = false;
  };
  priv_data_offset = 0;
}

abbrev fields : List HashField
fields = address ∷ packets ∷ []

-- 10.0.0.1 with 5 packets, and with 255
abbrev flow_a : List ℕ
flow_a = 10 ∷ 0 ∷ 0 ∷ 1 ∷ 0 ∷ 0 ∷ 0 ∷ 0 ∷ 0 ∷ 0 ∷ 0 ∷ 5 ∷ []

abbrev flow_b : List ℕ
flow_b = 10 ∷ 0 ∷ 0 ∷ 1 ∷ 0 ∷ 0 ∷ 0 ∷ 0 ∷ 0 ∷ 0 ∷ 0 ∷ 255 ∷ []

-- Numbers that stand for those of `crc32_tab`
abbrev some_table : ℕ → ℕ
some_table i = i * 7 + 1

fields-AreFields : All (IsField 12 12) fields
unfolding operation plain_operation one_of
fields-AreFields = (
  record { placed = record { inside = omega arith }; sized = tt; privately = tt },
  (
    record { placed = record { inside = omega arith }; sized = (refl, inl refl); privately = tt },
    tt,
  ),
)

flow_a-IsBytes : IsBytes flow_a
flow_a-IsBytes = ground arith

flow_b-IsBytes : IsBytes flow_b
flow_b-IsBytes = ground arith

lengths : SameLengths fields [] false 0 fields
unfolding key_field
lengths = (λ field e. ground (arith, e), (λ field e. ground (arith, e), tt))

equal_ab : equal_flow fields [] flow_a flow_b false ≡ ok true
unfolding equal_flow equal_fields key_field equal_raw same_bytes is_to_be_aggregated one_of read_u8
equal_ab = refl

get_hash-equal_flow_example :
    get_hash some_table 2 fields [] flow_b false ≡ get_hash some_table 2 fields [] flow_a false
get_hash-equal_flow_example =
    get_hash-equal_flow some_table 2 fields [] false flow_a flow_b lengths equal_ab

abbrev bucket_a : Bucket
bucket_a = record {
  inactive_expire_time = 110;
  active_expire_time = 160;
  flow = flow_a;
  force_expiry = false;
  in_table = true;
  hash = 0;
}

abbrev table_a : Hashtable
table_a = record {
  fields = fields;
  flow_reverse_mapper = [];
  rev_key_mapper = [];
  biflow_aggregation = false;
  htable_size = 2;
  inactive_timeout = 10;
  active_timeout = 60;
  store = some bucket_a ∷ [];
  buckets = (0 ∷ []) ∷ [] ∷ [];
  export_list = 0 ∷ [];
  sent = [];
  stat_records_received = 1;
  stat_records_sent = 0;
  stat_total_entries = 1;
  stat_empty_buckets = 0;
  stat_exported_buckets = 0;
  stat_multi_entries = 0;
}

flow_a-IsFlow : IsFlow 12 12 flow_a
flow_a-IsFlow = (omega arith, omega arith, flow_a-IsBytes)

flow_b-IsFlow : IsFlow 12 12 flow_b
flow_b-IsFlow = (omega arith, omega arith, flow_b-IsBytes)

table_a-IsValid : IsValid (IsFlow 12 12) table_a
table_a-IsValid = record {
  chained = slot;
  linked = in_slot;
  listed = ((bucket_a, refl, omega arith, flow_a-IsFlow), tt);
  distinct = (refl, tt);
  slots = refl;
  some_slot = omega arith;
}
  where
    in_slot :
        (j : ℕ) (b : Bucket) (chain : List ℕ)
        → get_elem? table_a.store j ≡ some (some b)
        → b.in_table ≡ true
        → get_elem? table_a.buckets b.hash ≡ some chain
        → has j chain ≡ true
    in_slot zero b chain e t f =
        let same : bucket_a ≡ b = some-injective _ _ (some-injective (some bucket_a) (some b) e) in
        let at_zero : get_elem? table_a.buckets 0 ≡ some chain =
          subst (λ k. get_elem? table_a.buckets k ≡ some chain) (sym (ap (λ x. x.hash) same)) f in
        subst (λ l. has 0 l ≡ true) (some-injective (0 ∷ []) chain at_zero) refl
    in_slot (suc j) b chain e t f = absurd (ground (arith, e))

    slot :
        (k : ℕ) (chain : List ℕ)
        → get_elem? table_a.buckets k ≡ some chain
        → All (InChain table_a.store (0 ∷ []) k) chain
    slot zero chain e =
        subst (All (InChain table_a.store (0 ∷ []) 0)) (some-injective (0 ∷ []) chain e)
          ((bucket_a, refl, refl, refl, refl), tt)
    slot (suc zero) chain e =
        subst (All (InChain table_a.store (0 ∷ []) 1)) (some-injective [] chain e) tt
    slot (suc (suc k)) chain e = absurd (ground (arith, e))

expire_flows-IsValid_example :
    (h' : Hashtable) × (expire_flows 110 false table_a ≡ ok h')
    × IsValid (IsFlow 12 12) h'
    × (h'.sent ≡ map (flow_at table_a.store) (take_while (is_due 110 false table_a.store) (0 ∷ [])))
    × (h'.export_list ≡ drop_while (is_due 110 false table_a.store) (0 ∷ []))
expire_flows-IsValid_example = expire_flows-IsValid (IsFlow 12 12) 110 false table_a table_a-IsValid

expire_flows-all_example :
    (h' : Hashtable) × (expire_flows 0 true table_a ≡ ok h') × Flushed table_a h'
expire_flows-all_example = expire_flows-all (IsFlow 12 12) 0 table_a table_a-IsValid

expire_flows_later_example :
    (h' : Hashtable) × (expire_flows 110 false table_a ≡ ok h') × Flushed table_a h'
expire_flows_later_example =
    expire_flows_later (IsFlow 12 12) 110 table_a table_a-IsValid
      ((bucket_a, refl, inl (omega arith)), tt)

buffer_forward-IsLost_example :
    (h1 : Hashtable) × (buffer_forward 105 flow_b (some 0) table_a ≡ ok (true, false, h1))
    × IsLost 0 h1
buffer_forward-IsLost_example =
    buffer_forward-IsLost 12 12 105 flow_b 0 bucket_a table_a (omega arith, (omega arith, tt))
      fields-AreFields flow_b-IsFlow table_a-IsValid (refl, omega arith, flow_a-IsFlow, refl)
      (ground arith) (omega arith)

-- SYN and ACK of a record are not kept in a field of two octets; FIN is.
syn_is_lost : update_bits 2 0 0 (0 ∷ 0 ∷ []) (1 ∷ 19 ∷ []) ≡ ok (1 ∷ 1 ∷ [])
unfolding update_bits read_u8 write_bytes write_at
syn_is_lost = refl
