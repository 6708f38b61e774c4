-- ===== src/Packet/Classified.antt =====
-- What `classify` leaves: it ends, within the buffer where the packet is not IPv6, and the headers
-- and the payload that it finds lie before `data_length`.
use vermont.Base.{
  subst, ℕ, ◌+◌, ◌*◌, ◌/◌, ◌≤◌, ◌<◌, ◌≡◌, refl, length, Option, none, some, Outcome, ok,
  out_of_bounds, overflow, out_of_fuel, ◌>>=◌, Bool-cases, inl, inr, true, false, ◌==◌, ◌&&◌, arith,
  leb, ltb, ltb→lt,
}
use vermont.Packet.{
  Packet, fixed_header, found_icmp, found_igmp, found_tcp, found_udp, classify_tcp,
  classify_transport, classify_payload, classify_header,
}
use vermont.Parser.Bytes.{read_u8, read_u8_within}

-- The code ends: with a packet of which `Q` holds or, where `B` holds, with a read beyond the buffer.
abbrev pub Returns : Type 0 → (Packet → Type 0) → Outcome Packet → Type 0
Returns B Q (ok q) = Q q
Returns B Q out_of_bounds = B
Returns B Q overflow = ⊥
Returns B Q out_of_fuel = ⊥

-- No header is found yet, and no payload.
pub record IsUnclassified (p : Packet) : Type 0 where
  pub no_tcp : p.classification.trn_tcp ≡ false
  pub no_udp : p.classification.trn_udp ≡ false
  pub no_icmp : p.classification.trn_icmp ≡ false
  pub no_igmp : p.classification.trn_igmp ≡ false
  pub no_payload : p.classification.has_payload ≡ false

-- The headers that are found end before `data_length`; a TCP header has its octet 12 there, whose upper
-- four bits are the header's number of 4-octet words.
pub record HasHeaders (q : Packet) : Type 0 where
  pub tcp_header :
      q.classification.trn_tcp ≡ true
      → (octet : ℕ) × (read_u8 q.net_header (q.transport_header_offset + 12) ≡ ok octet)
        × (q.transport_header_offset + 12 < q.data_length)
        × (q.transport_header_offset + octet / 16 * 4 ≤ q.data_length)
  pub udp_header : q.classification.trn_udp ≡ true → q.transport_header_offset + 8 ≤ q.data_length
  pub icmp_header : q.classification.trn_icmp ≡ true → q.transport_header_offset + 4 ≤ q.data_length
  pub igmp_header : q.classification.trn_igmp ≡ true → q.transport_header_offset + 8 ≤ q.data_length

pub record IsClassified (limit : ℕ) (q : Packet) : Type 0 where
  pub shorter : q.data_length ≤ limit
  pub headers : HasHeaders q
  pub payload_within :
      q.classification.has_payload ≡ true
      → (q.payload ≡ some q.payload_offset)
        × (0 < q.payload_offset)
        × (q.payload_offset < q.data_length)

HasHeaders-Unclassified : (p : Packet) → IsUnclassified p → HasHeaders p
HasHeaders-Unclassified p u = record {
  tcp_header = λ h. absurd (ground (arith, u.no_tcp, h));
  udp_header = λ h. absurd (ground (arith, u.no_udp, h));
  icmp_header = λ h. absurd (ground (arith, u.no_icmp, h));
  igmp_header = λ h. absurd (ground (arith, u.no_igmp, h));
}

-- What the switch over the protocol leaves
abbrev IsTyped : ℕ → Packet → Type 0
IsTyped limit q = HasHeaders q × (q.data_length ≤ limit) × (q.classification.has_payload ≡ false)

fixed_header-IsTyped :
    (size limit : ℕ) (found : Packet → Packet) (p : Packet)
    → IsUnclassified p
    → p.data_length ≤ limit
    → (p.transport_header_offset + size ≤ p.data_length
        → IsTyped limit (found (record p { payload_offset = p.transport_header_offset + size })))
    → IsTyped limit (fixed_header size found p)
unfolding fixed_header
fixed_header-IsTyped size limit found p u l f =
    elim (Bool-cases (leb (p.transport_header_offset + size) p.data_length)) [
      | inl e ↦ rw e (f (ground (arith, e)))
      | inr e ↦ rw e (headers (HasHeaders-Unclassified p u), l, u.no_payload)
    ]
  where
    headers : HasHeaders p → HasHeaders (record p { payload_offset = p.transport_header_offset })
    headers h = record {
      tcp_header = h.tcp_header;
      udp_header = h.udp_header;
      icmp_header = h.icmp_header;
      igmp_header = h.igmp_header;
    }

classify_tcp-IsTyped :
    (header limit : ℕ) (p : Packet)
    → IsUnclassified p
    → p.data_length ≤ limit
    → p.data_length ≤ length p.net_header
    → header ≡ p.transport_header_offset
    → Returns ⊥ (IsTyped limit) (classify_tcp header p)
unfolding classify_tcp found_tcp
classify_tcp-IsTyped header limit p u l m e =
    elim (Bool-cases (ltb (p.transport_header_offset + 12) p.data_length)) [
      | inl h ↦
          let (byte, read) =
            read_u8_within p.net_header (header + 12)
              (omega (arith, ltb→lt (p.transport_header_offset + 12) p.data_length h)) in
          rw (h, read)
            (fixed_header-IsTyped (byte / 16 * 4) limit found_tcp p u l (λ k. (
              record {
                tcp_header = λ _. (
                  byte,
                  subst (λ o. read_u8 p.net_header (o + 12) ≡ ok byte) e read,
                  ltb→lt (p.transport_header_offset + 12) p.data_length h,
                  k,
                );
                udp_header = λ h. absurd (ground (arith, u.no_udp, h));
                icmp_header = λ h. absurd (ground (arith, u.no_icmp, h));
                igmp_header = λ h. absurd (ground (arith, u.no_igmp, h));
              },
              l,
              u.no_payload,
            )))
      | inr h ↦ rw h (
        record {
          tcp_header = λ h. absurd (ground (arith, u.no_tcp, h));
          udp_header = λ h. absurd (ground (arith, u.no_udp, h));
          icmp_header = λ h. absurd (ground (arith, u.no_icmp, h));
          igmp_header = λ h. absurd (ground (arith, u.no_igmp, h));
        },
        l,
        u.no_payload,
      )
    ]

classify_transport-IsTyped :
    (protocol header limit : ℕ) (p : Packet)
    → IsUnclassified p
    → p.data_length ≤ limit
    → p.data_length ≤ length p.net_header
    → header ≡ p.transport_header_offset
    → Returns ⊥ (IsTyped limit) (classify_transport protocol header p)
unfolding classify_transport found_icmp found_igmp found_udp
classify_transport-IsTyped protocol header limit p u l m e = elim (Bool-cases (protocol == 6)) [
  | inl h ↦ rw h (classify_tcp-IsTyped header limit p u l m e)
  | inr h ↦ elim (Bool-cases (protocol == 1)) [
    | inl i ↦
        rw (h, i)
          (fixed_header-IsTyped 4 limit found_icmp p u l (λ k. (
            record {
              tcp_header = λ h. absurd (ground (arith, u.no_tcp, h));
              udp_header = λ h. absurd (ground (arith, u.no_udp, h));
              icmp_header = λ _. k;
              igmp_header = λ h. absurd (ground (arith, u.no_igmp, h));
            },
            l,
            u.no_payload,
          )))
    | inr i ↦ elim (Bool-cases (protocol == 2)) [
      | inl j ↦
          rw (h, i, j)
            (fixed_header-IsTyped 8 limit found_igmp p u l (λ k. (
              record {
                tcp_header = λ h. absurd (ground (arith, u.no_tcp, h));
                udp_header = λ h. absurd (ground (arith, u.no_udp, h));
                icmp_header = λ h. absurd (ground (arith, u.no_icmp, h));
                igmp_header = λ _. k;
              },
              l,
              u.no_payload,
            )))
      | inr j ↦ elim (Bool-cases (protocol == 17)) [
        | inl n ↦
            rw (h, i, j, n)
              (fixed_header-IsTyped 8 limit found_udp p u l (λ k. (
                record {
                  tcp_header = λ h. absurd (ground (arith, u.no_tcp, h));
                  udp_header = λ _. k;
                  icmp_header = λ h. absurd (ground (arith, u.no_icmp, h));
                  igmp_header = λ h. absurd (ground (arith, u.no_igmp, h));
                },
                l,
                u.no_payload,
              )))
        | inr n ↦
            rw (h, i, j, n)
              (
                record {
                  tcp_header = λ h. absurd (ground (arith, u.no_tcp, h));
                  udp_header = λ h. absurd (ground (arith, u.no_udp, h));
                  icmp_header = λ h. absurd (ground (arith, u.no_icmp, h));
                  igmp_header = λ h. absurd (ground (arith, u.no_igmp, h));
                },
                l,
                u.no_payload,
              )
      ]
    ]
  ]
]

classify_payload-IsClassified :
    (limit : ℕ) (q : Packet) → IsTyped limit q → IsClassified limit (classify_payload q)
unfolding classify_payload
classify_payload-IsClassified limit q (h, l, n) =
    elim (Bool-cases (ltb 0 q.payload_offset && ltb q.payload_offset q.data_length)) [
      | inl e ↦ rw e (record {
        shorter = l;
        headers = record {
          tcp_header = h.tcp_header;
          udp_header = h.udp_header;
          icmp_header = h.icmp_header;
          igmp_header = h.igmp_header;
        };
        payload_within = λ _. (refl, ground (arith, e), ground (arith, e));
      })
      | inr e ↦ rw e (record {
        shorter = l;
        headers = record {
          tcp_header = h.tcp_header;
          udp_header = h.udp_header;
          icmp_header = h.icmp_header;
          igmp_header = h.igmp_header;
        };
        payload_within = λ k. absurd (ground (arith, n, k));
      })
    ]

Unclassified-IsClassified :
    (limit : ℕ) (p : Packet) → IsUnclassified p → p.data_length ≤ limit → IsClassified limit p
Unclassified-IsClassified limit p u l = record {
  shorter = l;
  headers = HasHeaders-Unclassified p u;
  payload_within = λ k. absurd (ground (arith, u.no_payload, k));
}

Returns-then :
    (B : Type 0) (P Q : Packet → Type 0) (f : Packet → Packet)
    → ((q : Packet) → P q → Q (f q))
    → (r : Outcome Packet) → Returns ⊥ P r
    → Returns B Q (do q ← r; ok (f q))
Returns-then B P Q f g (ok q) h = g q h
Returns-then B P Q f g out_of_bounds h = absurd h
Returns-then B P Q f g overflow h = h
Returns-then B P Q f g out_of_fuel h = h

pub classify_header-IsClassified :
    (B : Type 0) (protocol limit : ℕ) (p : Packet) (o : Option ℕ)
    → IsUnclassified p
    → p.data_length ≤ limit
    → p.data_length ≤ length p.net_header
    → ((header : ℕ) → o ≡ some header → header ≡ p.transport_header_offset)
    → Returns B (IsClassified limit) (classify_header protocol p o)
classify_header-IsClassified B protocol limit p none u l m f = Unclassified-IsClassified limit p u l
classify_header-IsClassified B protocol limit p (some header) u l m f =
    elim (Bool-cases (protocol == 0)) [
      | inl h ↦ rw h (Unclassified-IsClassified limit p u l)
      | inr h ↦ rw h (
          Returns-then B (IsTyped limit) (IsClassified limit) classify_payload
            (classify_payload-IsClassified limit) (classify_transport protocol header p)
            (classify_transport-IsTyped protocol header limit p u l m (f header refl)))
    ]
