-- ===== src/Packet/FlowLabel.antt =====
-- What `classify` makes of an IPv6 packet whose flow label is 0 in its low 16 bits: the code takes
-- these for the length of the packet.
use vermont.Base.{
  ℕ, suc, ◌+◌, ◌≤◌, ◌<◌, ◌≡◌, ◌⊎◌, inl, inr, refl, length, some, Outcome, ok, out_of_bounds,
  overflow, out_of_fuel, ◌>>=◌, true, false, Bool-cases, arith, ltb, leb, ◌==◌, ◌&&◌,
}
use vermont.Packet.{
  Packet, crop, classify, classify_ip6, classify_header, classify_rest, classify_transport,
  classify_tcp, classify_payload, fixed_header, found_icmp, found_igmp, found_udp, has_version,
  extension_headers,
}
use vermont.Packet.Classified.{Returns}
use vermont.Packet.Crop.{crop_zero, crop-type, crop-has_payload}
use vermont.Packet.Headers.{IsTransport, extension_headers-IsTransport}
use vermont.Parser.Bytes.{read_u16, read_u8_within}

-- A header that is not there
fixed_header-none :
    (size : ℕ) (found : Packet → Packet) (q : Packet)
    → q.data_length < q.transport_header_offset + size
    → fixed_header size found q ≡ record q { payload_offset = q.transport_header_offset }
unfolding fixed_header
fixed_header-none size found q h =
    elim (Bool-cases (leb (q.transport_header_offset + size) q.data_length)) [
      | inl e ↦ absurd (ground (arith, e))
      | inr e ↦ rw e refl
    ]

classify_tcp-none :
    (header : ℕ) (q : Packet)
    → q.data_length ≤ q.transport_header_offset
    → classify_tcp header q ≡ ok (record q { payload_offset = q.transport_header_offset })
unfolding classify_tcp
classify_tcp-none header q h =
    elim (Bool-cases (ltb (q.transport_header_offset + 12) q.data_length)) [
      | inl e ↦ absurd (ground (arith, e))
      | inr e ↦ rw e refl
    ]

classify_transport-none :
    (protocol header : ℕ) (q : Packet)
    → (q.data_length ≤ q.transport_header_offset) ⊎ (protocol ≡ 44)
    → classify_transport protocol header q
      ≡ ok (record q { payload_offset = q.transport_header_offset })
unfolding classify_transport
classify_transport-none protocol header q (inr e) = rw e refl
classify_transport-none protocol header q (inl h) = elim (Bool-cases (protocol == 6)) [
  | inl e ↦ rw e (classify_tcp-none header q h)
  | inr e ↦ elim (Bool-cases (protocol == 1)) [
    | inl f ↦ rw (e, f, fixed_header-none 4 found_icmp q (omega arith)) refl
    | inr f ↦ elim (Bool-cases (protocol == 2)) [
      | inl g ↦ rw (e, f, g, fixed_header-none 8 found_igmp q (omega arith)) refl
      | inr g ↦ elim (Bool-cases (protocol == 17)) [
        | inl k ↦ rw (e, f, g, k, fixed_header-none 8 found_udp q (omega arith)) refl
        | inr k ↦ rw (e, f, g, k) refl
      ]
    ]
  ]
]

-- Neither a transport protocol nor payload is found.
pub IsBare : Packet → Packet → Type 0
IsBare p q =
    (q.ip_protocol_type ≡ p.ip_protocol_type)
    × (q.classification.has_payload ≡ p.classification.has_payload)
    × (q.data_length ≤ p.layer2_header_len)

classify_payload-none :
    (q : Packet)
    → (q.data_length ≤ q.payload_offset) ⊎ (q.payload_offset ≡ 0)
    → classify_payload q ≡ record q { payload_offset = 0 }
unfolding classify_payload
classify_payload-none q h =
    elim (Bool-cases (ltb 0 q.payload_offset && ltb q.payload_offset q.data_length)) [
      | inl e ↦ absurd (ground (arith, e, h))
      | inr e ↦ rw e refl
    ]

-- The second half of `classify` after the crop
classify_header-IsBare :
    (protocol : ℕ) (header : ℕ) (p q : Packet)
    → IsBare p q
    → p.layer2_header_len ≤ 40
    → (40 ≤ q.transport_header_offset) ⊎ ((protocol ≡ 44) × (q.transport_header_offset ≡ 0))
    → Returns Unit (IsBare p) (classify_header protocol q (some header))
unfolding IsBare
classify_header-IsBare protocol header p q bare short at = elim (Bool-cases (protocol == 0)) [
  | inl e ↦ rw e bare
  | inr e ↦
      rw
        (
          e,
          classify_transport-none protocol header q (beyond at),
          classify_payload-none (record q { payload_offset = q.transport_header_offset })
              (nothing at),
        )
        bare
]
  where
    beyond :
        (40 ≤ q.transport_header_offset) ⊎ ((protocol ≡ 44) × (q.transport_header_offset ≡ 0))
        → (q.data_length ≤ q.transport_header_offset) ⊎ (protocol ≡ 44)
    beyond (inl h) = inl (omega (arith, bare.2))
    beyond (inr h) = inr h.0

    nothing :
        (40 ≤ q.transport_header_offset) ⊎ ((protocol ≡ 44) × (q.transport_header_offset ≡ 0))
        → (q.data_length ≤ q.transport_header_offset) ⊎ (q.transport_header_offset ≡ 0)
    nothing (inl h) = inl (omega (arith, bare.2))
    nothing (inr h) = inr h.1

abbrev network_of : Packet → Outcome (ℕ × ℕ) → Outcome (ℕ × Packet)
network_of p r = do
  (protocol', offset) ← r
  ip_total_length ← read_u16 p.net_header 2
  let q =
      crop ip_total_length
        (record p { classification = record p.classification { net_ip6 = true } })
  ok (protocol', record q { transport_header_offset = offset; transport_header = some offset })

headers-IsBare :
    (p : Packet) (r : Outcome (ℕ × ℕ))
    → p.layer2_header_len ≤ 40
    → read_u16 p.net_header 2 ≡ ok 0
    → IsTransport 40 r
    → Returns Unit (IsBare p) (do (protocol, q) ← network_of p r; classify_rest protocol q)
unfolding IsBare classify_rest
headers-IsBare p (ok (protocol, offset)) short label at =
    let p' : Packet = record p { classification = record p.classification { net_ip6 = true } } in
    let q : Packet = crop 0 p' in
    rw label (
      classify_header-IsBare protocol offset p
        (record q { transport_header_offset = offset; transport_header = some offset })
        (crop-type 0 p', crop-has_payload 0 p', crop_zero p') short at)
headers-IsBare p out_of_bounds short label at = tt
headers-IsBare p overflow short label at = at
headers-IsBare p out_of_fuel short label at = at

-- An IPv6 packet of at least 8 bytes, all in the buffer, whose flow label is 0 in its low 16 bits and
-- whose layer 2 header has at most 40 bytes, keeps at most the length of that header: classify finds
-- no transport protocol and no payload in it, or reads beyond the buffer.
pub classify_zero_label :
    (p : Packet)
    → has_version 4 20 p ≡ ok false
    → has_version 6 40 p ≡ ok true
    → read_u16 p.net_header 2 ≡ ok 0
    → p.layer2_header_len ≤ 40
    → p.data_length ≤ length p.net_header
    → 8 ≤ p.data_length
    → Returns Unit (IsBare p) (classify p)
unfolding classify classify_ip6
classify_zero_label p v4 v6 label short room large =
    let (protocol, e) = read_u8_within p.net_header 7 (omega arith) in
    let at =
      extension_headers-IsTransport p.net_header (suc (length p.net_header)) protocol 40
        (omega arith) (omega arith) in
    rw (v4, v6, e)
      (headers-IsBare p (extension_headers p.net_header (suc (length p.net_header)) protocol 40)
        short label at)
