-- ===== src/Packet.antt =====
-- A captured packet and its classification: src/modules/packet/Packet.h. `net_header` holds the bytes
-- of the buffer from `data.netHeader` on, all that is allocated of it, and `layer2_header` those
-- between `layer2Start` and `data.netHeader`. Offsets are relative to `data.netHeader`.
mod Tests
pub mod Headers
pub mod Classified
pub mod Crop
pub mod Network
pub mod FlowLabel
use vermont.Base.{
  ℕ, suc, zero, ◌+◌, ◌*◌, ◌/◌, ◌%◌, ◌==◌, ◌||◌, ◌&&◌, leb, ltb, not, if◌then◌else◌, Bool, true,
  false, List, length, Option, none, some, Outcome, ok, out_of_fuel, ◌>>=◌,
}
use vermont.Parser.Bytes.{read_u8, read_u16}

-- `Packet::IPProtocolType`
pub data IpProtocolType : Type 0 where
  untyped : IpProtocolType
  tcp : IpProtocolType
  udp : IpProtocolType
  icmp : IpProtocolType
  igmp : IpProtocolType

-- `ipProtocolType == Packet::TCP`
abbrev pub is_tcp : IpProtocolType → Bool
is_tcp tcp = true
is_tcp untyped = false
is_tcp udp = false
is_tcp icmp = false
is_tcp igmp = false

-- The bits of `classification`
pub record Classification : Type 0 where
  pub net_ip4 : Bool
  pub net_ip6 : Bool
  pub trn_tcp : Bool
  pub trn_udp : Bool
  pub trn_icmp : Bool
  pub trn_igmp : Bool
  pub has_payload : Bool

pub record Packet : Type 0 where
  pub layer2_header : List ℕ
  pub net_header : List ℕ
  pub layer2_header_len : ℕ
  pub data_length : ℕ
  pub tv_sec : ℕ
  pub transport_header : Option ℕ
  pub payload : Option ℕ
  pub transport_header_offset : ℕ
  pub payload_offset : ℕ
  pub ip_protocol_type : IpProtocolType
  pub classification : Classification

-- The crop of layer 2 padding
unfoldable pub crop : ℕ → Packet → Packet
crop ip_total_length p =
    let end_of_ip_offset = p.layer2_header_len + ip_total_length in
    if ltb end_of_ip_offset p.data_length then record p { data_length = end_of_ip_offset } else p

-- The branch of `classify` for IPv4: the protocol and the packet
unfoldable pub classify_ip4 : Packet → Outcome (ℕ × Packet)
classify_ip4 p = do
  protocol ← read_u8 p.net_header 9
  first ← read_u8 p.net_header 0
  ip_total_length ← read_u16 p.net_header 2
  fragments ← read_u16 p.net_header 6
  let offset = (first % 16) * 4
  let q =
      crop ip_total_length
        (record p { classification = record p.classification { net_ip4 = true } })
  ok (
    protocol,
    (if ltb offset q.data_length && (fragments % 8192 == 0)
        then record q { transport_header_offset = offset; transport_header = some offset }
        else record q { transport_header_offset = 0 }),
  )

-- The protocols whose extension header tells its length in units of eight octets
unfoldable pub is_option_header : ℕ → Bool
is_option_header protocol =
    (protocol == 0) || (protocol == 60) || (protocol == 43) || (protocol == 135)

-- What a round of the loop over the extension headers leaves: another header, or the end of the loop
pub data HeaderRound : Type 0 where
  next_header : ℕ → ℕ → HeaderRound
  last_header : ℕ → ℕ → HeaderRound

-- The body of the loop, on the protocol and the offset
unfoldable pub header_round : List ℕ → ℕ → ℕ → Outcome HeaderRound
header_round net protocol offset =
    if is_option_header protocol
    then (do
      protocol' ← read_u8 net offset
      len ← read_u8 net (offset + 1)
      ok (next_header protocol' (offset + (len * 8 + 8))))
    else (if protocol == 44
        then (do
          fragments ← read_u16 net (offset + 2)
          if fragments / 8 == 0
              then (do protocol' ← read_u8 net offset; ok (next_header protocol' (offset + 8)))
              else ok (last_header protocol 0))
        else (if protocol == 51
            then (do
              protocol' ← read_u8 net offset
              len ← read_u8 net (offset + 1)
              ok (next_header protocol' (offset + (len + 2) * 4)))
            else ok (last_header protocol offset)))

-- The loop over the IPv6 extension headers: the protocol and the offset after it
unfoldable pub extension_headers : List ℕ → ℕ → ℕ → ℕ → Outcome (ℕ × ℕ)
extension_headers net zero protocol offset = out_of_fuel
extension_headers net (suc fuel) protocol offset = do
  round ← header_round net protocol offset
  elim round [
    | next_header protocol' offset' ↦ extension_headers net fuel protocol' offset'
    | last_header protocol' offset' ↦ ok (protocol', offset')
  ]

-- The branch of `classify` for IPv6. Every extension header takes eight octets, so the buffer's
-- length is fuel enough.
unfoldable pub classify_ip6 : Packet → Outcome (ℕ × Packet)
classify_ip6 p = do
  protocol ← read_u8 p.net_header 7
  (protocol', offset) ← extension_headers p.net_header (suc (length p.net_header)) protocol 40
  ip_total_length ← read_u16 p.net_header 2
  let q =
      crop ip_total_length
        (record p { classification = record p.classification { net_ip6 = true } })
  ok (protocol', record q { transport_header_offset = offset; transport_header = some offset })

-- The case of a protocol whose header has `size` octets: `found` is the packet with its type.
unfoldable pub fixed_header : ℕ → (Packet → Packet) → Packet → Packet
fixed_header size found p =
    if leb (p.transport_header_offset + size) p.data_length
    then found (record p { payload_offset = p.transport_header_offset + size })
    else record p { payload_offset = p.transport_header_offset }

unfoldable pub found_icmp : Packet → Packet
found_icmp p = record p {
  ip_protocol_type = icmp;
  classification = record p.classification { trn_icmp = true };
}

unfoldable pub found_igmp : Packet → Packet
found_igmp p = record p {
  ip_protocol_type = igmp;
  classification = record p.classification { trn_igmp = true };
}

unfoldable pub found_tcp : Packet → Packet
found_tcp p = record p {
  ip_protocol_type = tcp;
  classification = record p.classification { trn_tcp = true };
}

unfoldable pub found_udp : Packet → Packet
found_udp p = record p {
  ip_protocol_type = udp;
  classification = record p.classification { trn_udp = true };
}

-- The case of TCP
unfoldable pub classify_tcp : ℕ → Packet → Outcome Packet
classify_tcp header p =
    if ltb (p.transport_header_offset + 12) p.data_length
    then (do
      byte ← read_u8 p.net_header (header + 12)
      ok (fixed_header (byte / 16 * 4) found_tcp p))
    else ok (record p { payload_offset = p.transport_header_offset })

-- The switch over the protocol
unfoldable pub classify_transport : ℕ → ℕ → Packet → Outcome Packet
classify_transport protocol header p =
    if protocol == 6
    then classify_tcp header p
    else ok (
        if protocol == 1
        then fixed_header 4 found_icmp p
        else (if protocol == 2
            then fixed_header 8 found_igmp p
            else (if protocol == 17
                then fixed_header 8 found_udp p
                else record p { payload_offset = p.transport_header_offset })))

-- The check for payload
unfoldable pub classify_payload : Packet → Packet
classify_payload p =
    if ltb 0 p.payload_offset && ltb p.payload_offset p.data_length
    then record p {
      classification = record p.classification { has_payload = true };
      payload = some p.payload_offset;
    }
    else record p { payload_offset = 0 }

-- The second half of `classify`, on the transport header
abbrev pub classify_header : ℕ → Packet → Option ℕ → Outcome Packet
classify_header protocol p none = ok p
classify_header protocol p (some header) =
    if protocol == 0
    then ok p
    else (do q ← classify_transport protocol header p; ok (classify_payload q))

unfoldable pub classify_rest : ℕ → Packet → Outcome Packet
classify_rest protocol p = classify_header protocol p p.transport_header

-- The IP version, when that version's header fits in the packet
unfoldable pub has_version : ℕ → ℕ → Packet → Outcome Bool
has_version version size p =
    if leb (p.layer2_header_len + size) p.data_length
    then (do first ← read_u8 p.net_header 0; ok (first / 16 == version))
    else ok false

-- `Packet::classify`
unfoldable pub classify : Packet → Outcome Packet
classify p = do
  is_ip4 ← has_version 4 20 p
  if is_ip4 then (do (protocol, q) ← classify_ip4 p; classify_rest protocol q) else (do
    is_ip6 ← has_version 6 40 p
    if is_ip6
        then (do (protocol, q) ← classify_ip6 p; classify_rest protocol q)
        else classify_rest 0 p)
