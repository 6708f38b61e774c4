-- ===== src/Parser/Sequence.antt =====
-- The sequence numbers of `processIpfixPacket` and `processNetflowV9Packet`: which records or
-- messages of an exporter were lost.
--
-- `std::map<SourceID, SNInfo>` is a list of its entries; two keys are one where neither is less
-- (`SourceID::operator<`). Counters wrap at thirty-two bits.
use vermont.Base.{
  ℕ, ◌+◌, ◌-◌, ◌%◌, ◌^◌, ◌==◌, ltb, if◌then◌else◌, ◌&&◌, Bool, true, false, List, [], ◌∷◌, Option,
  none, some,
}
use vermont.Record.{SourceId, same_address}
use vermont.Parser.State.{SnInfo}
pub mod Loss

-- Neither `operator<` holds: descriptor, address, port and domain agree.
unfoldable pub same_key : SourceId → SourceId → Bool
same_key s x =
    (s.file_descriptor == x.file_descriptor)
    && (same_address s.exporter_address x.exporter_address
        && ((s.exporter_port == x.exporter_port)
            && (s.observation_domain_id == x.observation_domain_id)))

-- `uint32_t` addition
abbrev pub add32 : ℕ → ℕ → ℕ
add32 a b = (a + b) % 2 ^ 32

-- What a gap of `n` counts as: lost data records for IPFIX, lost messages for NetFlow.
abbrev pub add_lost : Bool → ℕ → SnInfo → SnInfo
add_lost true n i = record i { lost_data_records = add32 i.lost_data_records n }
add_lost false n i = record i { lost_messages = add32 i.lost_messages n }

-- The comparison of the message's number with `expectedSN`; the difference is an `int64_t`.
unfoldable pub compare_sn : Bool → ℕ → SnInfo → SnInfo
compare_sn ipfix sequence i =
    if ltb i.expected_sn sequence
    then add_lost ipfix (sequence - i.expected_sn) i
    else (if ltb sequence i.expected_sn
        then record i { out_of_order_messages = add32 i.out_of_order_messages 1 }
        else i)

-- The entry of a source after one more message.
unfoldable pub update_info : Bool → ℕ → ℕ → ℕ → ℕ → SnInfo → SnInfo
update_info ipfix sequence advance data_records template_records i =
    let j : SnInfo = compare_sn ipfix sequence i in
    record j {
      expected_sn = add32 sequence advance;
      received_messages = add32 j.received_messages 1;
      received_data_records = add32 j.received_data_records data_records;
      received_template_records = add32 j.received_template_records template_records;
    }

-- The entry of a source after its first message.
unfoldable pub first_info : ℕ → ℕ → ℕ → ℕ → SnInfo
first_info sequence advance data_records template_records = record {
  expected_sn = add32 sequence advance;
  received_messages = 1;
  received_data_records = data_records;
  received_template_records = template_records;
  out_of_order_messages = 0;
  lost_messages = 0;
  lost_data_records = 0;
}

-- The map after a message from `source`.
unfoldable pub account :
    Bool → SourceId → ℕ → ℕ → ℕ → ℕ → List (SourceId × SnInfo) → List (SourceId × SnInfo)
account ipfix source sequence advance data_records template_records [] =
    (source, first_info sequence advance data_records template_records) ∷ []
account ipfix source sequence advance data_records template_records ((key, i) ∷ entries) =
    if same_key key source
    then (key, update_info ipfix sequence advance data_records template_records i) ∷ entries
    else (key, i) ∷ account ipfix source sequence advance data_records template_records entries
