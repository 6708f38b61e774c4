-- ===== src/Aggregator/Number.antt =====
-- Numbers of several bytes in a record, in network byte order, and the functions of src/common/Misc.h
-- on them. A number read from memory stands for its value.
pub mod Memory
use vermont.Base.{
  ℕ, zero, suc, ◌+◌, ◌*◌, ◌/◌, ◌%◌, ◌^◌, ltb, if◌then◌else◌, List, [], ◌∷◌, ◌++◌, Outcome, ok,
  ◌>>=◌,
}
use vermont.Bloom.Key.{write_bytes}
use vermont.Parser.Bytes.{read_u8}

-- `n` bytes at an offset
unfoldable pub read_at : List ℕ → ℕ → ℕ → Outcome (List ℕ)
read_at buffer p zero = ok []
read_at buffer p (suc n) = do b ← read_u8 buffer p; rest ← read_at buffer (p + 1) n; ok (b ∷ rest)

-- The value of bytes, the first the most significant, behind the digits of `acc`
unfoldable pub be_value : ℕ → List ℕ → ℕ
be_value acc [] = acc
be_value acc (b ∷ bs) = be_value (acc * 256 + b) bs

-- The last `n` bytes of a number
unfoldable pub be_bytes : ℕ → ℕ → List ℕ
be_bytes zero v = []
be_bytes (suc n) v = be_bytes n (v / 256) ++ (v % 256) ∷ []

-- `ntohl(*(uint32_t*)p)`, `ntohll(*(uint64_t*)p)`: a number of `n` bytes
unfoldable pub read_number : ℕ → List ℕ → ℕ → Outcome ℕ
read_number n buffer p = do bs ← read_at buffer p n; ok (be_value 0 bs)

-- `*(uint32_t*)p = htonl(v)`, `*(uint64_t*)p = htonll(v)`
unfoldable pub write_number : ℕ → ℕ → List ℕ → ℕ → Outcome (List ℕ)
write_number n v buffer p = write_bytes buffer p (be_bytes n v)

-- `lesserUint32Nbo`, `lesserUint64Nbo`
unfoldable pub lesser : ℕ → ℕ → ℕ
lesser i j = if ltb i j then i else j

-- `greaterUint32Nbo`, `greaterUint64Nbo`
unfoldable pub greater : ℕ → ℕ → ℕ
greater i j = if ltb j i then i else j

-- `addUint32Nbo`
unfoldable pub add_u32 : ℕ → ℕ → ℕ
add_u32 i j = (i + j) % 2 ^ 32

-- `addUint64Nbo`
unfoldable pub add_u64 : ℕ → ℕ → ℕ
add_u64 i j = (i + j) % 2 ^ 64
