-- ===== src/Aggregator/Combine/Operations.antt =====
-- The cases of the `switch` in `aggregateField` that the information elements have
use mathlib.Core.Path.{fun_ext}
use vermont.Base.{ℕ, ◌≡◌, refl, true, false, arith}
use vermont.Aggregator.Combine.{
  Operation, earliest, latest, sum, control_bits, earliest_set, front_payload, front_payload_len,
  operation, plain_operation, reverse_operation, payload_operation, earlier_set,
}
use vermont.Aggregator.Field.{one_of, is_to_be_aggregated}
use vermont.Aggregator.Number.{lesser, greater}
use vermont.Aggregator.Combine.Elements.{
  start_sys_up_time, start_seconds, start_milliseconds, start_microseconds, start_nanoseconds,
  end_sys_up_time, end_seconds, end_milliseconds, end_microseconds, end_nanoseconds,
  octet_delta_count, packet_delta_count, post_octet_delta_count, post_packet_delta_count,
  octet_total_count, packet_total_count, dropped_octet_delta_count, dropped_packet_delta_count,
  reverse_start_seconds, reverse_start_milliseconds, reverse_start_nanoseconds, reverse_end_seconds,
  reverse_end_milliseconds, reverse_end_nanoseconds, reverse_octet_delta_count,
  reverse_packet_delta_count, reverse_octet_total_count, reverse_packet_total_count, own,
  own_reverse, protocol_identifier, source_port, source_ipv4_address, destination_port,
  destination_ipv4_address, source_ipv6_address, destination_ipv6_address, IsStart, IsEnd, IsCount,
  IsReverseStart, IsReverseEnd, IsReverseCount, IsOwn, IsKey, earlier, later, earlier_known,
}

pub lesser-earlier : lesser ≡ earlier
unfolding lesser
lesser-earlier = fun_ext (λ i. fun_ext (λ j. ground arith))

pub greater-later : greater ≡ later
unfolding greater
greater-later = fun_ext (λ i. fun_ext (λ j. ground arith))

pub earlier_set-earlier_known : earlier_set ≡ earlier_known
unfolding earlier_set lesser
earlier_set-earlier_known = fun_ext (λ i. fun_ext (λ j. ground arith))

-- An element is summed up by an operation.
abbrev pub IsDoneBy : Operation → ℕ → ℕ → Type 0
IsDoneBy op enterprise id =
    (len : ℕ)
    → (is_to_be_aggregated (record { id = id; enterprise = enterprise; len = len }) ≡ true)
      × (operation (record { id = id; enterprise = enterprise; len = len }) ≡ op)

pub start-IsDoneBy : (id n : ℕ) → IsStart id n → IsDoneBy (earliest n) 0 id
unfolding operation plain_operation one_of is_to_be_aggregated
start-IsDoneBy _ _ start_sys_up_time len = (refl, refl)
start-IsDoneBy _ _ start_seconds len = (refl, refl)
start-IsDoneBy _ _ start_milliseconds len = (refl, refl)
start-IsDoneBy _ _ start_microseconds len = (refl, refl)
start-IsDoneBy _ _ start_nanoseconds len = (refl, refl)

pub end-IsDoneBy : (id n : ℕ) → IsEnd id n → IsDoneBy (latest true n) 0 id
unfolding operation plain_operation one_of is_to_be_aggregated
end-IsDoneBy _ _ end_sys_up_time len = (refl, refl)
end-IsDoneBy _ _ end_seconds len = (refl, refl)
end-IsDoneBy _ _ end_milliseconds len = (refl, refl)
end-IsDoneBy _ _ end_microseconds len = (refl, refl)
end-IsDoneBy _ _ end_nanoseconds len = (refl, refl)

pub count-IsDoneBy : (id : ℕ) → IsCount id → IsDoneBy (sum true 8) 0 id
unfolding operation plain_operation one_of is_to_be_aggregated
count-IsDoneBy _ octet_delta_count len = (refl, refl)
count-IsDoneBy _ packet_delta_count len = (refl, refl)
count-IsDoneBy _ post_octet_delta_count len = (refl, refl)
count-IsDoneBy _ post_packet_delta_count len = (refl, refl)
count-IsDoneBy _ octet_total_count len = (refl, refl)
count-IsDoneBy _ packet_total_count len = (refl, refl)
count-IsDoneBy _ dropped_octet_delta_count len = (refl, refl)
count-IsDoneBy _ dropped_packet_delta_count len = (refl, refl)

pub reverse_start-IsDoneBy : (id n : ℕ) → IsReverseStart id n → IsDoneBy (earliest_set n) 29305 id
unfolding operation reverse_operation one_of is_to_be_aggregated
reverse_start-IsDoneBy _ _ reverse_start_seconds len = (refl, refl)
reverse_start-IsDoneBy _ _ reverse_start_milliseconds len = (refl, refl)
reverse_start-IsDoneBy _ _ reverse_start_nanoseconds len = (refl, refl)

pub reverse_end-IsDoneBy : (id n : ℕ) → IsReverseEnd id n → IsDoneBy (latest true n) 29305 id
unfolding operation reverse_operation one_of is_to_be_aggregated
reverse_end-IsDoneBy _ _ reverse_end_seconds len = (refl, refl)
reverse_end-IsDoneBy _ _ reverse_end_milliseconds len = (refl, refl)
reverse_end-IsDoneBy _ _ reverse_end_nanoseconds len = (refl, refl)

pub reverse_count-IsDoneBy : (id : ℕ) → IsReverseCount id → IsDoneBy (sum false 8) 29305 id
unfolding operation reverse_operation one_of is_to_be_aggregated
reverse_count-IsDoneBy _ reverse_octet_delta_count len = (refl, refl)
reverse_count-IsDoneBy _ reverse_packet_delta_count len = (refl, refl)
reverse_count-IsDoneBy _ reverse_octet_total_count len = (refl, refl)
reverse_count-IsDoneBy _ reverse_packet_total_count len = (refl, refl)

pub bits-IsDoneBy : IsDoneBy control_bits 0 6
unfolding operation plain_operation one_of is_to_be_aggregated
bits-IsDoneBy len = (refl, refl)

pub reverse_bits-IsDoneBy : IsDoneBy control_bits 29305 6
unfolding operation reverse_operation one_of is_to_be_aggregated
reverse_bits-IsDoneBy len = (refl, refl)

pub payload-IsDoneBy : (enterprise : ℕ) → IsOwn enterprise → IsDoneBy front_payload enterprise 1
unfolding operation payload_operation one_of is_to_be_aggregated
payload-IsDoneBy _ own len = (refl, refl)
payload-IsDoneBy _ own_reverse len = (refl, refl)

pub payload_length-IsDoneBy :
    (enterprise : ℕ) → IsOwn enterprise → IsDoneBy front_payload_len enterprise 2
unfolding operation payload_operation one_of is_to_be_aggregated
payload_length-IsDoneBy _ own len = (refl, refl)
payload_length-IsDoneBy _ own_reverse len = (refl, refl)

pub packet_gap-IsDoneBy :
    (enterprise : ℕ) → IsOwn enterprise → IsDoneBy (latest false 4) enterprise 3
unfolding operation payload_operation one_of is_to_be_aggregated
packet_gap-IsDoneBy _ own len = (refl, refl)
packet_gap-IsDoneBy _ own_reverse len = (refl, refl)

pub payload_packets-IsDoneBy : IsDoneBy (sum false 4) 2003828736 4
unfolding operation one_of is_to_be_aggregated
payload_packets-IsDoneBy len = (refl, refl)

pub is_to_be_aggregated-key :
    (id len : ℕ)
    → IsKey id
    → is_to_be_aggregated (record { id = id; enterprise = 0; len = len }) ≡ false
unfolding one_of is_to_be_aggregated
is_to_be_aggregated-key _ len protocol_identifier = refl
is_to_be_aggregated-key _ len source_port = refl
is_to_be_aggregated-key _ len source_ipv4_address = refl
is_to_be_aggregated-key _ len destination_port = refl
is_to_be_aggregated-key _ len destination_ipv4_address = refl
is_to_be_aggregated-key _ len source_ipv6_address = refl
is_to_be_aggregated-key _ len destination_ipv6_address = refl
