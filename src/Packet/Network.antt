-- ===== src/Packet/Network.antt =====
-- What the two branches of `classify` for an IP version hand on, and what `classify` returns.
use vermont.Base.{
  ℕ, suc, ◌+◌, ◌*◌, ◌/◌, ◌%◌, ◌≤◌, ◌<◌, ◌≡◌, refl, length, none, some, Outcome, ok, out_of_bounds,
  overflow, out_of_fuel, ◌>>=◌, Bool-cases, inl, inr, Bool, true, false, ◌==◌, ◌&&◌, if◌then◌else◌,
  arith, leb, ltb, sym, ap, ◌∙◌,
}
use mathlib.Core.Option.{some-injective, none-ne-some}
use vermont.Packet.{
  Packet, Classification, crop, classify_ip4, classify_ip6, extension_headers, classify_rest,
  has_version, classify,
}
use vermont.Packet.Crop.{crop-IsUnclassified, crop-net_header, crop-transport_header, crop-shorter}
use vermont.Packet.Headers.{IsTransport, extension_headers-IsTransport}
use vermont.Packet.Classified.{IsUnclassified, IsClassified, Returns, classify_header-IsClassified}
use vermont.Parser.Bytes.{read_u8_within, read_u16_within}

-- What a branch for an IP version hands on
record IsNetwork (limit : ℕ) (q : Packet) : Type 0 where
  unclassified : IsUnclassified q
  shorter : q.data_length ≤ limit
  room : q.data_length ≤ length q.net_header
  header_at : (header : ℕ) → q.transport_header ≡ some header → header ≡ q.transport_header_offset

abbrev ReturnsNetwork : Type 0 → ℕ → Outcome (ℕ × Packet) → Type 0
ReturnsNetwork B limit (ok x) = IsNetwork limit x.1
ReturnsNetwork B limit out_of_bounds = B
ReturnsNetwork B limit overflow = ⊥
ReturnsNetwork B limit out_of_fuel = ⊥

network-rest :
    (B : Type 0) (limit : ℕ) (r : Outcome (ℕ × Packet))
    → ReturnsNetwork B limit r
    → Returns B (IsClassified limit) (do (protocol, q) ← r; classify_rest protocol q)
unfolding classify_rest
network-rest B limit (ok x) h =
    classify_header-IsClassified B x.0 limit x.1 x.1.transport_header h.unclassified h.shorter
      h.room h.header_at
network-rest B limit out_of_bounds h = h
network-rest B limit overflow h = h
network-rest B limit out_of_fuel h = h

-- The packet with the bit of its IP version
network-IsUnclassified :
    (c : Classification) (p : Packet)
    → IsUnclassified p
    → c.trn_tcp ≡ p.classification.trn_tcp
    → c.trn_udp ≡ p.classification.trn_udp
    → c.trn_icmp ≡ p.classification.trn_icmp
    → c.trn_igmp ≡ p.classification.trn_igmp
    → c.has_payload ≡ p.classification.has_payload
    → IsUnclassified (record p { classification = c })
network-IsUnclassified c p u t d i g l = record {
  no_tcp = t ∙ u.no_tcp;
  no_udp = d ∙ u.no_udp;
  no_icmp = i ∙ u.no_icmp;
  no_igmp = g ∙ u.no_igmp;
  no_payload = l ∙ u.no_payload;
}

classify_ip4-IsNetwork :
    (B : Type 0) (limit : ℕ) (p : Packet)
    → IsUnclassified p
    → p.transport_header ≡ none
    → p.data_length ≤ limit
    → p.data_length ≤ length p.net_header
    → 20 ≤ p.data_length
    → ReturnsNetwork B limit (classify_ip4 p)
unfolding classify_ip4
classify_ip4-IsNetwork B limit p u none' l m h =
    let (protocol, e1) = read_u8_within p.net_header 9 (omega arith) in
    let (first, e2) = read_u8_within p.net_header 0 (omega arith) in
    let (total, e3) = read_u16_within p.net_header 2 (omega arith) in
    let (fragments, e4) = read_u16_within p.net_header 6 (omega arith) in
    let p' : Packet = record p { classification = record p.classification { net_ip4 = true } } in
    let q : Packet = crop total p' in
    let u' : IsUnclassified q =
      crop-IsUnclassified total p'
        (network-IsUnclassified (p'.classification) p u refl refl refl refl refl) in
    let short : q.data_length ≤ p.data_length = crop-shorter total p' in
    let net : q.net_header ≡ p.net_header = crop-net_header total p' in
    rw (e1, e2, e3, e4)
      (headers first fragments q u' (omega arith) (omega (arith, ap length net))
        (crop-transport_header total p' ∙ none'))
  where
    headers :
        (first fragments : ℕ) (q : Packet)
        → IsUnclassified q
        → q.data_length ≤ limit
        → q.data_length ≤ length q.net_header
        → q.transport_header ≡ none
        → IsNetwork limit (
            if ltb (first % 16 * 4) q.data_length && (fragments % 8192 == 0)
            then record q {
              transport_header_offset = first % 16 * 4;
              transport_header = some (first % 16 * 4);
            }
            else record q { transport_header_offset = 0 })
    headers first fragments q u l m n =
        elim (Bool-cases (ltb (first % 16 * 4) q.data_length && (fragments % 8192 == 0))) [
          | inl e ↦ rw e (record {
            unclassified = record {
              no_tcp = u.no_tcp;
              no_udp = u.no_udp;
              no_icmp = u.no_icmp;
              no_igmp = u.no_igmp;
              no_payload = u.no_payload;
            };
            shorter = l;
            room = m;
            header_at = λ header k. sym (some-injective _ _ k);
          })
          | inr e ↦ rw e (record {
            unclassified = record {
              no_tcp = u.no_tcp;
              no_udp = u.no_udp;
              no_icmp = u.no_icmp;
              no_igmp = u.no_igmp;
              no_payload = u.no_payload;
            };
            shorter = l;
            room = m;
            header_at = λ header k. absurd (none-ne-some header (sym n ∙ k));
          })
        ]

classify_ip6-IsNetwork :
    (B : Type 0) (limit : ℕ) (p : Packet)
    → IsUnclassified p
    → p.data_length ≤ limit
    → p.data_length ≤ length p.net_header
    → 40 ≤ p.data_length
    → B
    → ReturnsNetwork B limit (classify_ip6 p)
unfolding classify_ip6
classify_ip6-IsNetwork B limit p u l m h b =
    let (protocol, e1) = read_u8_within p.net_header 7 (omega arith) in
    let (total, e2) = read_u16_within p.net_header 2 (omega arith) in
    rw (e1, e2)
      (headers total (extension_headers p.net_header (suc (length p.net_header)) protocol 40) (
        extension_headers-IsTransport p.net_header (suc (length p.net_header)) protocol 40
          (omega arith) (omega arith)))
  where
    headers :
        (total : ℕ) (r : Outcome (ℕ × ℕ))
        → IsTransport 40 r
        → ReturnsNetwork B limit (do
          (protocol', offset) ← r
          let q =
              crop total (record p { classification = record p.classification { net_ip6 = true } })
          ok (
            protocol',
            record q { transport_header_offset = offset; transport_header = some offset },
          ))
    headers total (ok (protocol, offset)) k =
        let p' : Packet = record p {
          classification = record p.classification { net_ip6 = true };
        } in
        let q : Packet = crop total p' in
        let u' : IsUnclassified q =
          crop-IsUnclassified total p'
            (network-IsUnclassified (p'.classification) p u refl refl refl refl refl) in
        let short : q.data_length ≤ p.data_length = crop-shorter total p' in
        let net : q.net_header ≡ p.net_header = crop-net_header total p' in
        record {
          unclassified = record {
            no_tcp = u'.no_tcp;
            no_udp = u'.no_udp;
            no_icmp = u'.no_icmp;
            no_igmp = u'.no_igmp;
            no_payload = u'.no_payload;
          };
          shorter = omega arith;
          room = omega (arith, ap length net);
          header_at = λ header k. sym (some-injective _ _ k);
        }
    headers total out_of_bounds k = b
    headers total overflow k = k
    headers total out_of_fuel k = k

has_version-ok :
    (version size : ℕ) (p : Packet)
    → 0 < size
    → p.data_length ≤ length p.net_header
    → (b : Bool) × (has_version version size p ≡ ok b) × (b ≡ true → size ≤ p.data_length)
unfolding has_version
has_version-ok version size p pos m =
    elim (Bool-cases (leb (p.layer2_header_len + size) p.data_length)) [
      | inl e ↦
          let room : size ≤ p.data_length = ground (arith, e) in
          let (first, read) = read_u8_within p.net_header 0 (omega arith) in
          (first / 16 == version, rw (e, read) refl, λ _. room)
      | inr e ↦ (false, rw e refl, λ h. absurd (ground (arith, h)))
    ]

-- If the buffer behind netHeader holds data_length bytes, classify of an unclassified packet ends,
-- and reads beyond the buffer only where it takes the packet for IPv6; data_length does not grow,
-- a header that is found has its offset and size within data_length, and so has the payload
-- its offset. For TCP the header has the length that its data offset gives.
pub classify-IsClassified :
    (p : Packet)
    → IsUnclassified p
    → p.transport_header ≡ none
    → p.data_length ≤ length p.net_header
    → Returns (has_version 6 40 p ≡ ok true) (IsClassified p.data_length) (classify p)
unfolding classify
classify-IsClassified p u n m =
    let (is_ip4, e, room4) = has_version-ok 4 20 p (omega arith) m in
    let (is_ip6, f, room6) = has_version-ok 6 40 p (omega arith) m in
    rw (e, f) (versions is_ip4 is_ip6 room4 room6)
  where
    versions :
        (is_ip4 is_ip6 : Bool)
        → (is_ip4 ≡ true → 20 ≤ p.data_length)
        → (is_ip6 ≡ true → 40 ≤ p.data_length)
        → Returns (ok is_ip6 ≡ ok true) (IsClassified p.data_length) (
            if is_ip4
            then (do (protocol, q) ← classify_ip4 p; classify_rest protocol q)
            else (if is_ip6
                then (do (protocol, q) ← classify_ip6 p; classify_rest protocol q)
                else classify_rest 0 p))
    versions true is_ip6 r4 r6 =
        network-rest (ok is_ip6 ≡ ok true) p.data_length (classify_ip4 p) (
          classify_ip4-IsNetwork (ok is_ip6 ≡ ok true) p.data_length p u n (omega arith) m
            (r4 refl))
    versions false true r4 r6 = network-rest (ok true ≡ ok true) p.data_length (classify_ip6 p) (
        classify_ip6-IsNetwork (ok true ≡ ok true) p.data_length p u (omega arith) m (r6 refl) refl)
    versions false false r4 r6 =
        network-rest (ok false ≡ ok true) p.data_length (ok (0, p)) (record {
          unclassified = u;
          shorter = omega arith;
          room = m;
          header_at = λ header k. absurd (none-ne-some header (sym n ∙ k));
        })
