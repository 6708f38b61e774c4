-- ===== src/Parser/Tests.antt =====
-- Runs of the parser on small messages.
use vermont.Base.{
  ℕ, ◌+◌, ◌%◌, ◌^◌, ◌≤◌, ◌<◌, ◌≡◌, refl, true, false, List, [], ◌∷◌, map, All, Outcome, ok,
  overflow, out_of_fuel, arith,
}
use vermont.Record.{
  template_record, data_record, Event, FieldInfo, ipfix_template, ipfix_options_template,
}
use vermont.TemplateBuffer.{BufferedTemplate, buffer_template, get_buffered_template, is_wanted}
use vermont.Parser.State.Invariant.{IsValid, IsSound}
use vermont.Parser.TemplateSet.Safety.{Valid, process_template_set-Ends}
use vermont.Parser.OptionsSet.{options_round, process_options_template_set}
use vermont.Parser.OptionsSet.Safety.{process_options_template_set-Ends}
use vermont.Parser.OptionsSet.Overflow.{options_round_overflow}
use vermont.Parser.DataSet.Rounds.{Sends}
use vermont.Parser.DataSet.Safety.{process_data_set-Ends}
use vermont.Parser.DataSet.Fixed.{send_all, data_records_fixed, data_records_stuck}
use vermont.Parser.DataSet.Variable.{ArePlaced, place_fields-ArePlaced}
use vermont.Parser.Fields.Lengths.{total_length, IsInside, Any}
use vermont.Parser.Fields.Overlap.{read_fields-IsInside, read_fields_outside}
use vermont.Parser.Message.Safety.{ValidResult, process_packet-IsSafe}
use vermont.Parser.Message.Time.{future_refused}
use vermont.Parser.Sequence.Loss.{Message, after, lost-received}
use vermont.Parser.Bytes.{read_u8, read_u16, read_u32}
use vermont.Parser.State.{Parser, SnInfo, learn, push}
use vermont.Parser.Fields.{read_field, read_enterprise, read_fields}
use vermont.Parser.Walk.{walk, Ends, IsSafe}
use vermont.Parser.TemplateSet.{template_round, process_template_set}
use vermont.Parser.DataSet.{
  lookup, fixed_round, data_records, data_set, process_data_set, place_fields,
}
use vermont.Parser.Sequence.{account, first_info}
use vermont.Parser.Message.{
  Status, process_set, set_body, ipfix_round, finish_message, count_message, process_ipfix_packet,
  is_within_time_boundary, process_packet,
}
use vermont.Parser.Examples.{
  exporter, default_build, fresh, message, domain_3, template_256, buffered_256, buffered_other,
  buffered_empty, knowing, scope_only, address_field, octets_field,
}

abbrev buffer_after : Outcome (ℕ × Parser) → List BufferedTemplate
buffer_after (ok (count, s)) = s.template_buffer
buffer_after r = []

abbrev fields_256 : List FieldInfo
fields_256 = address_field ∷ octets_field ∷ []

abbrev wide_field : ℕ → ℕ → FieldInfo
wide_field id offset = record {
  type = record { id = id; enterprise = 0; len = 40000 };
  offset = offset;
  is_variable_length = false;
}

abbrev wide_fields : List FieldInfo
wide_fields = wide_field 8 0 ∷ wide_field 9 40000 ∷ []

abbrev expecting_7 : SnInfo
expecting_7 = record {
  expected_sn = 7;
  received_messages = 1;
  received_data_records = 0;
  received_template_records = 0;
  out_of_order_messages = 0;
  lost_messages = 0;
  lost_data_records = 0;
}

-- Record 7 arrives, 8 to 12 are lost, and 13 and 14 arrive.
abbrev two_messages : List Message
two_messages =
    record { sequence = 7; data_records = 1; template_records = 1 }
    ∷ record { sequence = 13; data_records = 2; template_records = 0 }
    ∷ []

abbrev sent_by : Outcome (Status × Parser) → List Event
sent_by (ok (status, s)) = s.sent
sent_by r = []

-- The template is announced and the data record is found behind the set header, at byte 36.
message_sent :
    sent_by (process_packet default_build (λ _. 0) 50 message 46 exporter fresh)
    ≡ template_record domain_3 template_256 ∷ data_record domain_3 template_256 8 36 ∷ []
unfolding process_packet process_ipfix_packet is_within_time_boundary read_u8 read_u16 read_u32 walk
    ipfix_round set_body process_set process_template_set template_round read_fields read_field
    read_enterprise learn push buffer_template process_data_set lookup get_buffered_template
    data_set data_records fixed_round finish_message count_message account first_info
message_sent = refl

-- A template set whose fields take no bytes: its data records are empty.
empty_template :
    map
      (λ bt. bt.record_length)
      (buffer_after (
        process_template_set 50 domain_3 ipfix_template
          (0 ∷ 2 ∷ 0 ∷ 12 ∷ 1 ∷ 1 ∷ 0 ∷ 1 ∷ 0 ∷ 8 ∷ 0 ∷ 0 ∷ [])
          0
          12
          fresh))
    ≡ 0 ∷ []
unfolding process_template_set read_u8 read_u16 walk template_round read_fields read_field
    read_enterprise learn push buffer_template
empty_template = refl

fresh-IsValid : IsValid fresh
fresh-IsValid = record { unique = tt; sound = tt }

buffered_256-IsSound : IsSound buffered_256
buffered_256-IsSound = record {
  small = omega arith;
  fixed = λ _. (refl, refl, (refl, refl, refl));
  varying = λ h. absurd (omega arith);
}

buffered_other-IsSound : IsSound buffered_other
buffered_other-IsSound = record {
  small = omega arith;
  fixed = λ _. (refl, refl, (refl, refl, refl));
  varying = λ h. absurd (omega arith);
}

knowing-IsValid : IsValid knowing
unfolding is_wanted
knowing-IsValid = record {
  unique = ((refl, tt), (tt, tt));
  sound = (buffered_256-IsSound, (buffered_other-IsSound, tt));
}

process_packet-IsSafe_example :
    IsSafe ValidResult (process_packet default_build (λ _. 0) 50 message 46 exporter fresh)
process_packet-IsSafe_example =
    process_packet-IsSafe default_build (λ _. 0) 50 message 46 exporter fresh (omega arith)
      (omega arith) fresh-IsValid

process_template_set-Ends_example :
    Ends ⊥ Valid (process_template_set 50 domain_3 ipfix_template message 16 46 fresh)
process_template_set-Ends_example =
    process_template_set-Ends 50 domain_3 ipfix_template message 16 46 fresh (omega arith)
      (omega arith) fresh-IsValid

process_options_template_set-Ends_example :
    Ends Unit Valid
      (process_options_template_set (λ _. 0) 50 domain_3 ipfix_options_template message 16 46 fresh)
process_options_template_set-Ends_example =
    process_options_template_set-Ends (λ _. 0) 50 domain_3 ipfix_options_template message 16 46
      fresh (omega arith) (omega arith) fresh-IsValid

options_round_overflow_example :
    options_round (λ _. 0) 50 domain_3 ipfix_options_template scope_only 10 0 (0, fresh) ≡ overflow
unfolding read_u8 read_u16
options_round_overflow_example =
    options_round_overflow (λ _. 0) 50 domain_3 scope_only 10 0 (0, fresh) 258 1 149 4 (omega arith)
      refl refl refl refl refl (omega arith) (omega arith) (omega arith)

process_data_set-Ends_example :
    Ends ⊥
      (Sends 36 46 (lookup 50 domain_3 256 knowing).1)
      (process_data_set true 50 domain_3 message 32 46 knowing)
unfolding read_u8 read_u16
process_data_set-Ends_example =
    process_data_set-Ends true 50 domain_3 message 32 46 256 14 knowing (omega arith) refl refl
      knowing-IsValid (omega arith, (omega arith, tt))

data_records_fixed_example :
    data_records domain_3 message 46 buffered_256 15 36 knowing
    ≡ ok (1, send_all (data_record domain_3 template_256 8 36 ∷ []) knowing)
data_records_fixed_example =
    data_records_fixed domain_3 message 46 buffered_256 1 15 36 knowing (omega arith) (omega arith)
      (omega arith) (omega arith)

data_records_stuck_example :
    data_records domain_3 message 46 buffered_empty 1000 36 knowing ≡ out_of_fuel
data_records_stuck_example =
    data_records_stuck domain_3 message 46 buffered_empty 1000 36 knowing refl (omega arith)

place_fields-ArePlaced_example :
    ArePlaced
      (address_field ∷ octets_field ∷ [])
      0
      (place_fields domain_3 message 46 (address_field ∷ octets_field ∷ []) 36 0)
place_fields-ArePlaced_example =
    place_fields-ArePlaced domain_3 message 46 (omega arith) (address_field ∷ octets_field ∷ []) 36
      0

read_fields-IsInside_example : (8 ≡ total_length fields_256) × All (IsInside 8) fields_256
unfolding read_fields read_field read_enterprise read_u8 read_u16
read_fields-IsInside_example =
    read_fields-IsInside message true 32 2 24 fields_256 32 8 (omega arith) (omega arith) refl
      (omega arith)

-- Two fields of 40000 bytes each.
read_fields_outside_example :
    (14464 < 2 ^ 16) × Any (λ f. 2 ^ 16 ≤ f.offset + f.type.len) wide_fields
unfolding read_fields read_field read_enterprise read_u8 read_u16
read_fields_outside_example =
    read_fields_outside (0 ∷ 8 ∷ 156 ∷ 64 ∷ 0 ∷ 9 ∷ 156 ∷ 64 ∷ []) true 8 2 0 wide_fields 8 14464
      (omega arith) (omega arith) refl (omega arith)

future_refused_example : is_within_time_boundary true 1000 1001 ≡ false
future_refused_example = future_refused 1000 1001 (omega arith) (omega arith) (omega arith)

lost-received_example :
    let j = after two_messages expecting_7 in
    ((j.lost_data_records + j.received_data_records + 7) % 2 ^ 32 ≡ 15)
    × (j.out_of_order_messages ≡ 0)
lost-received_example = lost-received two_messages expecting_7 (omega arith)
