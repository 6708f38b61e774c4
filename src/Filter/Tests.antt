-- ===== src/Filter/Tests.antt =====
-- Tests of the packet filters, and their theorems at concrete inputs.
use vermont.Base.{
  ℕ, ◌+◌, ◌≡◌, refl, true, false, List, [], ◌∷◌, ◌++◌, replicate, none, some, ok, ◌*◌, arith,
}
use vermont.Bloom.Key.{
  Quintuple, quintuple_key, packet_quintuple, read_le32, read_le16, transport_u16, quintuple,
}
use vermont.Filter.StateConnection.{StateConnectionFilter, payload_len, find_entry, key_eq}
use vermont.Filter.StateConnection.Budget.{
  Arrival, segment, other_protocol, run, answers, run-answers,
}
use vermont.Packet.{Packet, tcp, udp}
use vermont.Parser.Bytes.{read_u8}

-- A TCP packet from 10.0.0.2 to 10.0.0.1, with 40 octets of headers
abbrev tcp_packet : ℕ → ℕ → ℕ → Packet
tcp_packet port flags len = record {
  layer2_header = replicate 14 0;
  net_header =
      (69 ∷ 0 ∷ 0 ∷ 46 ∷ 0 ∷ 1 ∷ 0 ∷ 0 ∷ 64 ∷ 6 ∷ 0 ∷ 0 ∷ 10 ∷ 0 ∷ 0 ∷ 2 ∷ 10 ∷ 0 ∷ 0 ∷ 1 ∷ [])
      ++ (19 ∷ port ∷ 0 ∷ 80 ∷ replicate 8 0)
      ++ 80 ∷ flags ∷ replicate 80 7;
  layer2_header_len = 14;
  data_length = 40 + len;
  tv_sec = 1000;
  transport_header = some 20;
  payload = some 40;
  transport_header_offset = 20;
  payload_offset = 40;
  ip_protocol_type = tcp;
  classification = record {
    net_ip4 = true;
    net_ip6 = false;
    trn_tcp = true;
    trn_udp = false;
    trn_icmp = false;
    trn_igmp = false;
    has_payload = true;
  };
}

abbrev udp_packet : Packet
udp_packet = record (tcp_packet 136 0 30) { ip_protocol_type = udp }

abbrev connection : ℕ → Quintuple
connection port = record {
  src_ip = 33554442;
  dst_ip = 16777226;
  proto = 0;
  src_port = 19 + 256 * port;
  dst_port = 20480;
}

abbrev hundred_bytes : StateConnectionFilter
hundred_bytes = record {
  export_list = (connection 137, 70) ∷ [];
  export_bytes = 100;
  export_control_packets = true;
}

-- Two connections, the second of which is open, and a UDP packet
abbrev mixed : List (Packet × Arrival)
mixed =
    (tcp_packet 136 2 0, segment (connection 136) 2 0)
    ∷ (tcp_packet 136 16 40, segment (connection 136) 16 40)
    ∷ (udp_packet, other_protocol)
    ∷ (tcp_packet 137 16 60, segment (connection 137) 16 60)
    ∷ (tcp_packet 136 16 60, segment (connection 136) 16 60)
    ∷ (tcp_packet 136 16 1, segment (connection 136) 16 1)
    ∷ (tcp_packet 136 17 0, segment (connection 136) 17 0)
    ∷ []

-- The SYN, the first 40 octets and the FIN are exported.
answers-mixed :
    answers 100 true (connection 136) mixed none ≡ true ∷ true ∷ false ∷ false ∷ true ∷ []
unfolding answers key_eq
answers-mixed = refl

key_of_packet :
    (port flags len : ℕ) → quintuple_key (tcp_packet port flags len) ≡ ok (connection port)
unfolding quintuple_key packet_quintuple read_u8 read_le32 read_le16 transport_u16 quintuple
key_of_packet port flags len = refl

flags_of_packet :
    (port flags len : ℕ) → read_u8 (tcp_packet port flags len).net_header 33 ≡ ok flags
unfolding read_u8
flags_of_packet port flags len = refl

run-answers_example :
    run (connection 136) mixed hundred_bytes ≡ ok (answers 100 true (connection 136) mixed none)
unfolding find_entry key_eq payload_len
run-answers_example =
    run-answers (connection 136) mixed hundred_bytes (omega arith)
      (
        (refl, key_of_packet 136 2 0, flags_of_packet 136 2 0, refl, omega arith),
        (
          (refl, key_of_packet 136 16 40, flags_of_packet 136 16 40, refl, omega arith),
          (
            refl,
            (
              (refl, key_of_packet 137 16 60, flags_of_packet 137 16 60, refl, omega arith),
              (
                (refl, key_of_packet 136 16 60, flags_of_packet 136 16 60, refl, omega arith),
                (
                  (refl, key_of_packet 136 16 1, flags_of_packet 136 16 1, refl, omega arith),
                  ((refl, key_of_packet 136 17 0, flags_of_packet 136 17 0, refl, omega arith), tt),
                ),
              ),
            ),
          ),
        ),
      )
      refl
