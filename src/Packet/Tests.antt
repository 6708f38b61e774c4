-- ===== src/Packet/Tests.antt =====
-- Tests of `classify`, and its theorem at a concrete packet.
use vermont.Base.{
  ℕ, ◌≡◌, refl, true, false, List, [], ◌∷◌, ◌++◌, replicate, none, ok, arith, ◌>>=◌, Outcome,
}
use vermont.Packet.{
  Packet, Classification, IpProtocolType, untyped, tcp, has_version, classify, classify_ip4,
  classify_ip6, classify_rest, classify_transport, classify_tcp, classify_payload, fixed_header,
  found_tcp, found_udp, crop, extension_headers, header_round, is_option_header,
}
use vermont.Packet.Classified.{IsClassified, Returns}
use vermont.Packet.Network.{classify-IsClassified}
use vermont.Packet.FlowLabel.{IsBare, classify_zero_label}
use vermont.Parser.Bytes.{read_u8, read_u16}

abbrev unclassified : Classification
unclassified = record {
  net_ip4 = false;
  net_ip6 = false;
  trn_tcp = false;
  trn_udp = false;
  trn_icmp = false;
  trn_igmp = false;
  has_payload = false;
}

abbrev captured : List ℕ → Packet
captured net = record {
  layer2_header = replicate 14 0;
  net_header = net;
  layer2_header_len = 14;
  data_length = 60;
  tv_sec = 1000;
  transport_header = none;
  payload = none;
  transport_header_offset = 0;
  payload_offset = 0;
  ip_protocol_type = untyped;
  classification = unclassified;
}

abbrev summary : Outcome Packet → Outcome (IpProtocolType × ℕ × ℕ)
summary r = do q ← r; ok (q.ip_protocol_type, q.payload_offset, q.data_length)

-- An IPv4 packet with a TCP header and six octets of data
abbrev tcp_octets : List ℕ
tcp_octets =
    (69 ∷ 0 ∷ 0 ∷ 46 ∷ 0 ∷ 1 ∷ 0 ∷ 0 ∷ 64 ∷ 6 ∷ 0 ∷ 0 ∷ 10 ∷ 0 ∷ 0 ∷ 1 ∷ 10 ∷ 0 ∷ 0 ∷ 2 ∷ [])
    ++ (195 ∷ 80 ∷ 0 ∷ 80 ∷ replicate 8 0)
    ++ 80 ∷ 2 ∷ replicate 12 7
    ++ replicate 40 0

tcp_is_found : summary (classify (captured tcp_octets)) ≡ ok (tcp, 40, 60)
unfolding classify has_version classify_ip4 classify_rest classify_transport classify_tcp
    classify_payload fixed_header found_tcp crop read_u8 read_u16
tcp_is_found = refl

-- An IPv6 packet of a UDP datagram, whose flow label is 0: the crop at the flow label, in place of the
-- payload length, leaves no room for a header.
abbrev udp6_octets : List ℕ
udp6_octets = 96 ∷ 0 ∷ 0 ∷ 0 ∷ 0 ∷ 20 ∷ 17 ∷ 17 ∷ replicate 60 1

udp6_is_not_found : summary (classify (captured udp6_octets)) ≡ ok (untyped, 0, 14)
unfolding classify has_version classify_ip6 classify_rest classify_transport classify_payload
    fixed_header found_udp crop read_u8 read_u16 extension_headers header_round is_option_header
udp6_is_not_found = refl

classify-IsClassified_example :
    Returns
      (has_version 6 40 (captured tcp_octets) ≡ ok true)
      (IsClassified 60)
      (classify (captured tcp_octets))
classify-IsClassified_example =
    classify-IsClassified (captured tcp_octets)
      (record { no_tcp = refl; no_udp = refl; no_icmp = refl; no_igmp = refl; no_payload = refl })
      refl (omega arith)

classify_zero_label_example :
    Returns Unit (IsBare (captured udp6_octets)) (classify (captured udp6_octets))
unfolding has_version read_u8 read_u16
classify_zero_label_example =
    classify_zero_label (captured udp6_octets) refl refl refl (omega arith) (omega arith)
      (omega arith)
