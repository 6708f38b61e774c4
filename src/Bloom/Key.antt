-- ===== src/Bloom/Key.antt =====
-- The keys of the filters: `GenericKey` and `QuintupleKey` of src/common/bloom/BloomFilterBase.h. The
-- host is little-endian.
pub mod Contents
use vermont.Base.{
  ℕ, zero, suc, ◌+◌, ◌-◌, ◌*◌, ◌/◌, ◌%◌, ◌^◌, ◌==◌, ltb, if◌then◌else◌, Bool, true, false, List, [],
  ◌∷◌, ◌++◌, take, replicate, length, Option, none, some, Outcome, ok, out_of_bounds, ◌>>=◌,
}
use vermont.Bloom.Cells.{write_at}
use vermont.Packet.{Packet, is_tcp}
use vermont.Parser.Bytes.{read_u8}

-- The first `n` bytes of a buffer, read by `memcpy`
unfoldable pub read_bytes : List ℕ → ℕ → Outcome (List ℕ)
read_bytes buffer zero = ok []
read_bytes [] (suc n) = out_of_bounds
read_bytes (b ∷ bs) (suc n) = do rest ← read_bytes bs n; ok (b ∷ rest)

-- The bytes that `memcpy` writes from an index on
unfoldable pub write_bytes : List ℕ → ℕ → List ℕ → Outcome (List ℕ)
write_bytes buffer i [] = ok buffer
write_bytes buffer i (b ∷ bs) = do buffer' ← write_at buffer i b; write_bytes buffer' (suc i) bs

-- `memcmp(a, b, n) < 0`
unfoldable pub bytes_lt : ℕ → List ℕ → List ℕ → Bool
bytes_lt zero xs ys = false
bytes_lt (suc n) [] ys = false
bytes_lt (suc n) (x ∷ xs) [] = false
bytes_lt (suc n) (x ∷ xs) (y ∷ ys) = let rest = bytes_lt n xs ys in if x == y then rest else ltb x y

-- `GenericKey<size>`, whose `size` is the length of `data`
pub record GenericKey : Type 0 where
  pub len : ℕ
  pub data_ : List ℕ

unfoldable pub new_generic_key : ℕ → GenericKey
new_generic_key size = record { len = 0; data_ = replicate size 0 }

-- `GenericKey::reset`
unfoldable pub reset : GenericKey → GenericKey
reset k = record { len = 0; data_ = replicate (length k.data_) 0 }

-- `GenericKey::set`
unfoldable pub set_generic_key : List ℕ → ℕ → GenericKey → Outcome GenericKey
set_generic_key input inputlen k =
    let len = if ltb inputlen (length k.data_) then inputlen else length k.data_ in
    do
      bytes ← read_bytes input len
      data' ← write_bytes k.data_ 0 bytes
      ok (record { len = len; data_ = data' })

-- `GenericKey::append`: the sum is of type `unsigned`.
unfoldable pub append : List ℕ → ℕ → GenericKey → Outcome GenericKey
append input inputlen k =
    if ltb k.len (length k.data_)
    then (if ltb ((k.len + inputlen) % 2 ^ 32) (length k.data_)
        then (do
          bytes ← read_bytes input inputlen
          data' ← write_bytes k.data_ k.len bytes
          ok (record { len = (k.len + inputlen) % 2 ^ 32; data_ = data' }))
        else (do
          bytes ← read_bytes input (length k.data_ - k.len)
          data' ← write_bytes k.data_ k.len bytes
          ok (record { len = length k.data_; data_ = data' })))
    else ok k

-- `GenericKey::operator<`
unfoldable pub generic_key_lt : GenericKey → GenericKey → Bool
generic_key_lt k other =
    if ltb k.len other.len
    then true
    else (if ltb other.len k.len then false else bytes_lt k.len k.data_ other.data_)

-- `QuintupleKey::Quintuple`
pub record Quintuple : Type 0 where
  pub src_ip : ℕ
  pub dst_ip : ℕ
  pub proto : ℕ
  pub src_port : ℕ
  pub dst_port : ℕ

abbrev pub no_quintuple : Quintuple
no_quintuple = record { src_ip = 0; dst_ip = 0; proto = 0; src_port = 0; dst_port = 0 }

-- The order of the two ends in `QuintupleKey(const Packet*)`; the branch of equal addresses assigns
-- `srcPort` twice.
unfoldable pub quintuple : ℕ → ℕ → ℕ → ℕ → Quintuple
quintuple ip1 ip2 port1 port2 =
    if ip1 == ip2
    then record {
      src_ip = ip1;
      dst_ip = ip1;
      proto = 0;
      src_port = if ltb port2 port1 then port2 else port1;
      dst_port = 0;
    }
    else (if ltb ip2 ip1
        then record { src_ip = ip1; dst_ip = ip2; proto = 0; src_port = port1; dst_port = port2 }
        else record { src_ip = ip2; dst_ip = ip1; proto = 0; src_port = port2; dst_port = port1 })

-- A number of two and of four bytes in memory
unfoldable pub read_le16 : List ℕ → ℕ → Outcome ℕ
read_le16 buffer p = do lo ← read_u8 buffer p; hi ← read_u8 buffer (p + 1); ok (lo + 256 * hi)

unfoldable pub read_le32 : List ℕ → ℕ → Outcome ℕ
read_le32 buffer p = do lo ← read_le16 buffer p; hi ← read_le16 buffer (p + 2); ok (lo + 65536 * hi)

-- A port, read through `transportHeader`, which can be missing
unfoldable pub transport_u16 : Packet → ℕ → Outcome ℕ
transport_u16 p i = elim p.transport_header [
  | none ↦ out_of_bounds
  | some header ↦ read_le16 p.net_header (header + i)
]

-- The addresses and ports of a packet
unfoldable pub packet_quintuple : Packet → Outcome Quintuple
packet_quintuple p = do
  ip1 ← read_le32 p.net_header 12
  ip2 ← read_le32 p.net_header 16
  port1 ← transport_u16 p 0
  port2 ← transport_u16 p 2
  ok (quintuple ip1 ip2 port1 port2)

-- `QuintupleKey(const Packet*)`
unfoldable pub quintuple_key : Packet → Outcome Quintuple
quintuple_key p = if is_tcp p.ip_protocol_type then packet_quintuple p else ok no_quintuple
