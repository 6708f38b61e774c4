-- ===== src/Filter/StateConnection.antt =====
-- `StateConnectionFilter`: src/modules/packet/filter/StateConnectionFilter.cpp, which exports the
-- first bytes of each TCP connection. An `int` is its 32-bit pattern.
pub mod Entries
pub mod Budget
use vermont.Base.{
  ℕ, ◌+◌, ◌-◌, ◌/◌, ◌%◌, ◌^◌, ◌==◌, ◌||◌, ◌&&◌, ltb, leb, not, if◌then◌else◌, Bool, true, false,
  List, [], ◌∷◌, Option, none, some, Outcome, ok, ◌>>=◌,
}
use vermont.Bloom.Cells.{int_lt}
use vermont.Bloom.Key.{Quintuple, quintuple_key}
use vermont.Packet.{Packet, is_tcp}
use vermont.Parser.Bytes.{read_u8}

-- The equality of keys that the order of `QuintupleKey`s gives
unfoldable pub key_eq : Quintuple → Quintuple → Bool
key_eq k l =
    (k.src_ip == l.src_ip)
    && ((k.dst_ip == l.dst_ip)
        && ((k.proto == l.proto) && ((k.src_port == l.src_port) && (k.dst_port == l.dst_port))))

-- `exportList.find(key)`, and the number there
unfoldable pub find_entry : Quintuple → List (Quintuple × ℕ) → Option ℕ
find_entry key [] = none
find_entry key (e ∷ es) = let rest = find_entry key es in if key_eq key e.0 then some e.1 else rest

-- `exportList.erase`
unfoldable pub erase_entry : Quintuple → List (Quintuple × ℕ) → List (Quintuple × ℕ)
erase_entry key [] = []
erase_entry key (e ∷ es) =
    let rest = erase_entry key es in if key_eq key e.0 then rest else e ∷ rest

-- `exportList[key] = v`
abbrev pub set_entry : Quintuple → ℕ → List (Quintuple × ℕ) → List (Quintuple × ℕ)
set_entry key v es = (key, v) ∷ erase_entry key es

pub record StateConnectionFilter : Type 0 where
  pub export_list : List (Quintuple × ℕ)
  pub export_bytes : ℕ
  pub export_control_packets : Bool

-- `payloadLen`
unfoldable pub payload_len : Packet → ℕ
payload_len p =
    if p.classification.has_payload then (p.data_length + 2 ^ 32 - p.payload_offset) % 2 ^ 32 else 0

-- `flags & mask` for a mask of one bit
unfoldable pub has_flag : ℕ → ℕ → Bool
has_flag mask flags = not (flags / mask % 2 == 0)

-- The branch of a SYN packet, on what `exportList.find` finds
abbrev pub syn_packet : Quintuple → StateConnectionFilter → Option ℕ → StateConnectionFilter
syn_packet key s none = record s { export_list = set_entry key 0 s.export_list }
syn_packet key s (some v) = s

unfoldable pub process_syn : Quintuple → StateConnectionFilter → StateConnectionFilter
process_syn key s = syn_packet key s (find_entry key s.export_list)

-- `exportList[key]` set to a number that is positive, or the entry erased
abbrev pub keep_entry : Bool → Quintuple → ℕ → StateConnectionFilter → StateConnectionFilter
keep_entry true key v s = record s { export_list = set_entry key v s.export_list }
keep_entry false key v s = record s { export_list = erase_entry key s.export_list }

-- The branch of a packet that is neither SYN, RST nor FIN, on what `exportList.find` finds
abbrev pub normal_packet :
    Quintuple → ℕ → StateConnectionFilter → Option ℕ → Bool × StateConnectionFilter
normal_packet key len s none = (false, s)
normal_packet key len s (some v) =
    let left = (v + 2 ^ 32 - len) % 2 ^ 32 in
    if int_lt 0 v
    then (int_lt (len % 2 ^ 32) v, keep_entry (int_lt 0 left) key left s)
    else (ltb len s.export_bytes, keep_entry (ltb len s.export_bytes) key (s.export_bytes - len) s)

unfoldable pub process_normal : Quintuple → ℕ → StateConnectionFilter → Bool × StateConnectionFilter
process_normal key len s = normal_packet key len s (find_entry key s.export_list)

-- `StateConnectionFilter::processPacket`
unfoldable pub process_packet :
    Packet → StateConnectionFilter → Outcome (Bool × StateConnectionFilter)
process_packet p s =
    if is_tcp p.ip_protocol_type
    then (do
      key ← quintuple_key p
      flags ← read_u8 p.net_header (p.transport_header_offset + 13)
      ok (
          if has_flag 2 flags
          then (s.export_control_packets, process_syn key s)
          else (if has_flag 4 flags || has_flag 1 flags
              then (
                s.export_control_packets,
                record s { export_list = erase_entry key s.export_list },
              )
              else process_normal key (payload_len p) s)))
    else ok (false, s)
