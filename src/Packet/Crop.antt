-- ===== src/Packet/Crop.antt =====
-- What the crop of layer 2 padding leaves as it is, and what it shortens.
use vermont.Base.{ℕ, ◌+◌, ◌≤◌, ◌≡◌, refl, inl, inr, Bool-cases, ltb, arith}
use vermont.Packet.{Packet, crop}
use vermont.Packet.Classified.{IsUnclassified}

-- A crop changes no more than the length.
pub crop-IsUnclassified : (n : ℕ) (p : Packet) → IsUnclassified p → IsUnclassified (crop n p)
unfolding crop
crop-IsUnclassified n p u = elim (Bool-cases (ltb (p.layer2_header_len + n) p.data_length)) [
  | inl e ↦ rw e (record {
    no_tcp = u.no_tcp;
    no_udp = u.no_udp;
    no_icmp = u.no_icmp;
    no_igmp = u.no_igmp;
    no_payload = u.no_payload;
  })
  | inr e ↦ rw e u
]

pub crop-net_header : (n : ℕ) (p : Packet) → (crop n p).net_header ≡ p.net_header
unfolding crop
crop-net_header n p = ground arith

pub crop-transport_header : (n : ℕ) (p : Packet) → (crop n p).transport_header ≡ p.transport_header
unfolding crop
crop-transport_header n p = ground arith

pub crop-shorter : (n : ℕ) (p : Packet) → (crop n p).data_length ≤ p.data_length
unfolding crop
crop-shorter n p = ground arith

pub crop_zero : (p : Packet) → (crop 0 p).data_length ≤ p.layer2_header_len
unfolding crop
crop_zero p = ground arith

pub crop-type : (n : ℕ) (p : Packet) → (crop n p).ip_protocol_type ≡ p.ip_protocol_type
unfolding crop
crop-type n p = elim (Bool-cases (ltb (p.layer2_header_len + n) p.data_length)) [
  | inl e ↦ rw e refl
  | inr e ↦ rw e refl
]

pub crop-has_payload :
    (n : ℕ) (p : Packet) → (crop n p).classification.has_payload ≡ p.classification.has_payload
unfolding crop
crop-has_payload n p = elim (Bool-cases (ltb (p.layer2_header_len + n) p.data_length)) [
  | inl e ↦ rw e refl
  | inr e ↦ rw e refl
]
