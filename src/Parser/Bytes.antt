-- ===== src/Parser/Bytes.antt =====
-- Reads of a message in network byte order. A pointer into the message is an offset; a read beyond
-- the buffer is a fault. Pointers themselves are only compared.
use vermont.Base.{
  ℕ, ◌+◌, ◌*◌, ◌≤◌, ◌≡◌, List, length, get_elem?, get_elem?-lt, Outcome, ok, ◌>>=◌, or_fault, arith,
}

-- `*(uint8_t*)p`
unfoldable pub read_u8 : List ℕ → ℕ → Outcome ℕ
read_u8 message p = or_fault (get_elem? message p)

-- `ntohs(*(uint16_t*)p)`
unfoldable pub read_u16 : List ℕ → ℕ → Outcome ℕ
unfolding read_u8
read_u16 message p = do hi ← read_u8 message p; lo ← read_u8 message (p + 1); ok (hi * 256 + lo)

-- `ntohl(*(uint32_t*)p)`
unfoldable pub read_u32 : List ℕ → ℕ → Outcome ℕ
unfolding read_u16
read_u32 message p = do hi ← read_u16 message p; lo ← read_u16 message (p + 2); ok (hi * 65536 + lo)

pub read_u8_within :
    (message : List ℕ) (p : ℕ) → p + 1 ≤ length message → (v : ℕ) × (read_u8 message p ≡ ok v)
unfolding read_u8
read_u8_within message p h = let (v, e) = get_elem?-lt message p (omega arith) in (v, ground arith)

pub read_u16_within :
    (message : List ℕ) (p : ℕ) → p + 2 ≤ length message → (v : ℕ) × (read_u16 message p ≡ ok v)
unfolding read_u16
read_u16_within message p h =
    let (a, e) = read_u8_within message p (omega arith) in
    let (b, f) = read_u8_within message (p + 1) (omega arith) in (a * 256 + b, ground arith)

pub read_u32_within :
    (message : List ℕ) (p : ℕ) → p + 4 ≤ length message → (v : ℕ) × (read_u32 message p ≡ ok v)
unfolding read_u32
read_u32_within message p h =
    let (a, e) = read_u16_within message p (omega arith) in
    let (b, f) = read_u16_within message (p + 2) (omega arith) in (a * 65536 + b, ground arith)
