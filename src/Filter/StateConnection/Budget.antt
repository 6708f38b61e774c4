-- ===== src/Filter/StateConnection/Budget.antt =====
-- What `StateConnectionFilter` exports of a connection, its packets mixed with those of others.
use vermont.Base.{
  ℕ, ◌+◌, ◌-◌, ◌/◌, ◌%◌, ◌^◌, ◌<◌, ◌≡◌, refl, sym, ◌∙◌, subst, List, [], ◌∷◌, Option, none, some,
  Bool, true, false, not, ◌==◌, ◌||◌, Bool-cases, inl, inr, if◌then◌else◌, ltb, ltb→lt, ltb→le, All,
  Outcome, ok, ◌>>=◌, arith,
}
use vermont.Bloom.Cells.{int_lt}
use vermont.Bloom.Key.{Quintuple, quintuple_key}
use vermont.Packet.{Packet, is_tcp}
use vermont.Parser.Bytes.{read_u8}
use vermont.Filter.StateConnection.{
  StateConnectionFilter, key_eq, find_entry, erase_entry, payload_len, has_flag, process_syn,
  syn_packet, process_normal, normal_packet, keep_entry, process_packet,
}
use vermont.Filter.StateConnection.Entries.{
  key_eq→eq, find_entry-erase_entry, find_entry-set_entry, find_entry-erase_other,
  find_entry-set_other,
}

-- What a packet that arrives is: a TCP segment with its key, its octet of flags and the length of its
-- payload, or a packet of another protocol
pub data Arrival : Type 0 where
  segment : (key : Quintuple) (flags payload : ℕ) → Arrival
  other_protocol : Arrival

-- The packet is that arrival, and has less than 2^31 octets of payload.
abbrev pub IsArrival : Packet × Arrival → Type 0
IsArrival (p, segment key flags payload) =
    (is_tcp p.ip_protocol_type ≡ true)
    × (quintuple_key p ≡ ok key)
    × (read_u8 p.net_header (p.transport_header_offset + 13) ≡ ok flags)
    × (payload_len p ≡ payload)
    × (payload < 2 ^ 31)
IsArrival (p, other_protocol) = is_tcp p.ip_protocol_type ≡ false

abbrev pub is_of : Quintuple → Arrival → Bool
is_of key (segment k _ _) = key_eq key k
is_of key other_protocol = false

-- `processPacket` on each packet, and its answers to the packets of one connection
unfoldable pub run :
    Quintuple → List (Packet × Arrival) → StateConnectionFilter → Outcome (List Bool)
run key [] s = ok []
run key (a ∷ rest) s = do
  (exported, s') ← process_packet a.0 s
  later ← run key rest s'
  ok (if is_of key a.1 then exported ∷ later else later)

-- What is to be known of a connection: the octets of payload that have passed since its SYN, or that it
-- is not open. A SYN opens it.
abbrev pub opened : Option ℕ → Option ℕ
opened none = some 0
opened (some used) = some used

-- The answer to a packet without SYN, FIN and RST: it is exported if the payloads, its own included, are
-- less than `bytes`, and closes the connection otherwise.
abbrev pub passed : ℕ → ℕ → Option ℕ → Bool × Option ℕ
passed bytes len none = (false, none)
passed bytes len (some used) =
    if ltb (used + len) bytes then (true, some (used + len)) else (false, none)

-- The answer to any packet of the connection; FIN and RST close it.
abbrev pub answer : ℕ → Bool → ℕ → ℕ → Option ℕ → Bool × Option ℕ
answer bytes control flags len o =
    if flags / 2 % 2 == 1
    then (control, opened o)
    else (if (flags / 4 % 2 == 1) || (flags / 1 % 2 == 1)
        then (control, none)
        else passed bytes len o)

-- The answers that the packets of one connection are to have
unfoldable pub answers : ℕ → Bool → Quintuple → List (Packet × Arrival) → Option ℕ → List Bool
answers bytes control key [] o = []
answers bytes control key ((_, other_protocol) ∷ rest) o = answers bytes control key rest o
answers bytes control key ((_, segment k flags len) ∷ rest) o =
    if key_eq key k
    then (answer bytes control flags len o).0
      ∷ answers bytes control key rest (answer bytes control flags len o).1
    else answers bytes control key rest o

-- The entry of a connection, if `some used` octets have passed or it is not open
data IsAt (bytes : ℕ) : Option ℕ → Option ℕ → Type 0 where
  fresh : IsAt bytes (some 0) (some 0)
  left : (used v : ℕ) → 0 < v → v + used ≡ bytes → IsAt bytes (some used) (some v)
  closed : IsAt bytes none none

int_lt_zero : (v : ℕ) → 0 < v → v < 2 ^ 31 → int_lt 0 v ≡ true
unfolding int_lt
int_lt_zero v p h = ground arith

int_lt_small : (len v : ℕ) → len < 2 ^ 31 → v < 2 ^ 31 → int_lt (len % 2 ^ 32) v ≡ ltb len v
unfolding int_lt
int_lt_small len v l h = ground arith

left_mod : (len v : ℕ) → len < 2 ^ 31 → v < 2 ^ 31 → len < v → (v + 2 ^ 32 - len) % 2 ^ 32 ≡ v - len
left_mod len v l h k = omega arith

int_lt_left :
    (len v : ℕ) → len < 2 ^ 31 → v < 2 ^ 31 → int_lt 0 ((v + 2 ^ 32 - len) % 2 ^ 32) ≡ ltb len v
unfolding int_lt
int_lt_left len v l h = ground arith

int_lt_none : int_lt 0 0 ≡ false
unfolding int_lt
int_lt_none = refl

-- What a packet does to the entry of its connection: its answer, and the entry after it
abbrev IsStep :
    Quintuple → Bool × Option ℕ → StateConnectionFilter → Bool × StateConnectionFilter → Type 0
IsStep key expected s r =
    (r.0 ≡ expected.0)
    × IsAt s.export_bytes expected.1 (find_entry key r.1.export_list)
    × (r.1.export_bytes ≡ s.export_bytes)
    × (r.1.export_control_packets ≡ s.export_control_packets)

keep_entry-IsStep :
    (key : Quintuple) (len used v w : ℕ) (s : StateConnectionFilter)
    → v + used ≡ s.export_bytes
    → (len < v → w ≡ v - len)
    → IsStep key
        (passed s.export_bytes len (some used))
        s
        (ltb len v, keep_entry (ltb len v) key w s)
keep_entry-IsStep key len used v w s q f = elim (Bool-cases (ltb len v)) [
  | inl k ↦
      let more : ltb (used + len) s.export_bytes ≡ true = ground (arith, ltb→lt len v k, q) in
      rw (k, more, find_entry-set_entry key w s.export_list)
        (
          refl,
          left (used + len) w (omega (arith, f (ltb→lt len v k), ltb→lt len v k))
              (omega (arith, f (ltb→lt len v k), ltb→lt len v k)),
          refl,
          refl,
        )
  | inr k ↦
      let over : ltb (used + len) s.export_bytes ≡ false = ground (arith, ltb→le len v k, q) in
      rw (k, over, find_entry-erase_entry key s.export_list) (refl, closed, refl, refl)
]

process_normal-IsStep :
    (key : Quintuple) (len : ℕ) (s : StateConnectionFilter) (used o : Option ℕ)
    → s.export_bytes < 2 ^ 31
    → len < 2 ^ 31
    → find_entry key s.export_list ≡ o
    → IsAt s.export_bytes used o
    → IsStep key (passed s.export_bytes len used) s (process_normal key len s)
unfolding process_normal
process_normal-IsStep key len s _ none b l e closed = rw (e, e) (refl, closed, refl, refl)
process_normal-IsStep key len s _ (some _) b l e fresh =
    rw (e, int_lt_none)
      (keep_entry-IsStep key len 0 s.export_bytes (s.export_bytes - len) s (omega arith)
        (λ k. refl))
process_normal-IsStep key len s _ (some _) b l e (left used v p q) =
    rw
      (
        e,
        int_lt_zero v p (omega arith),
        int_lt_small len v l (omega arith),
        int_lt_left len v l (omega arith),
      )
      (keep_entry-IsStep key len used v ((v + 2 ^ 32 - len) % 2 ^ 32) s q
        (λ k. left_mod len v l (omega arith) k))

-- What stays as it is for the connection `key`
abbrev Kept : Quintuple → StateConnectionFilter → StateConnectionFilter → Type 0
Kept key s s' =
    (find_entry key s'.export_list ≡ find_entry key s.export_list)
    × (s'.export_bytes ≡ s.export_bytes)
    × (s'.export_control_packets ≡ s.export_control_packets)

-- A packet of another connection
process_normal-Kept :
    (key other : Quintuple) (len : ℕ) (s : StateConnectionFilter)
    → key_eq key other ≡ false
    → Kept key s (process_normal other len s).1
unfolding process_normal
process_normal-Kept key other len s h = go (find_entry other s.export_list)
  where
    kept : (b : Bool) (v : ℕ) → Kept key s (keep_entry b other v s)
    kept true v = (find_entry-set_other key other v s.export_list h, refl, refl)
    kept false v = (find_entry-erase_other key other s.export_list h, refl, refl)

    go : (o : Option ℕ) → Kept key s (normal_packet other len s o).1
    go none = (refl, refl, refl)
    go (some v) = elim (Bool-cases (int_lt 0 v)) [
      | inl e ↦ rw e (kept (int_lt 0 ((v + 2 ^ 32 - len) % 2 ^ 32)) ((v + 2 ^ 32 - len) % 2 ^ 32))
      | inr e ↦ rw e (kept (ltb len s.export_bytes) (s.export_bytes - len))
    ]

process_syn-Kept :
    (key other : Quintuple) (s : StateConnectionFilter)
    → key_eq key other ≡ false
    → Kept key s (process_syn other s)
unfolding process_syn
process_syn-Kept key other s h = go (find_entry other s.export_list)
  where
    go : (o : Option ℕ) → Kept key s (syn_packet other s o)
    go none = (find_entry-set_other key other 0 s.export_list h, refl, refl)
    go (some v) = (refl, refl, refl)

process_syn-IsStep :
    (key : Quintuple) (s : StateConnectionFilter) (used o : Option ℕ)
    → find_entry key s.export_list ≡ o
    → IsAt s.export_bytes used o
    → IsStep key
        (s.export_control_packets, opened used)
        s
        (s.export_control_packets, process_syn key s)
unfolding process_syn
process_syn-IsStep key s _ none e closed =
    rw (e, find_entry-set_entry key 0 s.export_list) (refl, fresh, refl, refl)
process_syn-IsStep key s _ (some _) e fresh = rw (e, e) (refl, fresh, refl, refl)
process_syn-IsStep key s _ (some _) e (left used v p q) =
    rw (e, e) (refl, left used v p q, refl, refl)

-- What `processPacket` does with the key and the flags of a segment
abbrev segment_packet : Quintuple → ℕ → ℕ → StateConnectionFilter → Bool × StateConnectionFilter
segment_packet key flags len s =
    if flags / 2 % 2 == 1
    then (s.export_control_packets, process_syn key s)
    else (if (flags / 4 % 2 == 1) || (flags / 1 % 2 == 1)
        then (s.export_control_packets, record s { export_list = erase_entry key s.export_list })
        else process_normal key len s)

has_flag-odd : (mask flags : ℕ) → has_flag mask flags ≡ (flags / mask % 2 == 1)
unfolding has_flag
has_flag-odd mask flags = odd (flags / mask)
  where
    odd : (n : ℕ) → not (n % 2 == 0) ≡ (n % 2 == 1)
    odd n = ground arith

process_packet-segment :
    (p : Packet) (key : Quintuple) (flags len : ℕ) (s : StateConnectionFilter)
    → IsArrival (p, segment key flags len)
    → process_packet p s ≡ ok (segment_packet key flags len s)
unfolding process_packet
process_packet-segment p key flags len s (t, k, f, l, _) =
    rw (t, k, f, l, has_flag-odd 2 flags, has_flag-odd 4 flags, has_flag-odd 1 flags) refl

process_packet-other :
    (p : Packet) (s : StateConnectionFilter)
    → is_tcp p.ip_protocol_type ≡ false
    → process_packet p s ≡ ok (false, s)
unfolding process_packet
process_packet-other p s h = rw h refl

segment_packet-IsStep :
    (key : Quintuple) (flags len : ℕ) (s : StateConnectionFilter) (used : Option ℕ)
    → s.export_bytes < 2 ^ 31
    → len < 2 ^ 31
    → IsAt s.export_bytes used (find_entry key s.export_list)
    → IsStep key
        (answer s.export_bytes s.export_control_packets flags len used)
        s
        (segment_packet key flags len s)
segment_packet-IsStep key flags len s used b l at = elim (Bool-cases (flags / 2 % 2 == 1)) [
  | inl syn ↦ rw syn (process_syn-IsStep key s used (find_entry key s.export_list) refl at)
  | inr e ↦ elim (Bool-cases ((flags / 4 % 2 == 1) || (flags / 1 % 2 == 1))) [
    | inl over ↦ rw (e, over, find_entry-erase_entry key s.export_list) (refl, closed, refl, refl)
    | inr none_set ↦
        rw (e, none_set)
          (process_normal-IsStep key len s used (find_entry key s.export_list) b l refl at)
  ]
]

segment_packet-Kept :
    (key other : Quintuple) (flags len : ℕ) (s : StateConnectionFilter)
    → key_eq key other ≡ false
    → Kept key s (segment_packet other flags len s).1
segment_packet-Kept key other flags len s h = elim (Bool-cases (flags / 2 % 2 == 1)) [
  | inl syn ↦ rw syn (process_syn-Kept key other s h)
  | inr e ↦ elim (Bool-cases ((flags / 4 % 2 == 1) || (flags / 1 % 2 == 1))) [
    | inl over ↦ rw (e, over) (find_entry-erase_other key other s.export_list h, refl, refl)
    | inr none_set ↦ rw (e, none_set) (process_normal-Kept key other len s h)
  ]
]

-- The same for the numbers that the filter has been made with
segment_packet-Follows :
    (key : Quintuple) (flags len : ℕ) (s : StateConnectionFilter) (used : Option ℕ) (bytes : ℕ)
    (control : Bool)
    → bytes < 2 ^ 31
    → len < 2 ^ 31
    → s.export_bytes ≡ bytes
    → s.export_control_packets ≡ control
    → IsAt bytes used (find_entry key s.export_list)
    → ((segment_packet key flags len s).0 ≡ (answer bytes control flags len used).0)
      × IsAt bytes
          (answer bytes control flags len used).1
          (find_entry key (segment_packet key flags len s).1.export_list)
      × ((segment_packet key flags len s).1.export_bytes ≡ bytes)
      × ((segment_packet key flags len s).1.export_control_packets ≡ control)
segment_packet-Follows key flags len s used bytes control b l eb ec at =
    let at' : IsAt s.export_bytes used (find_entry key s.export_list) =
      subst (λ n. IsAt n used (find_entry key s.export_list)) (sym eb) at in
    let (same, later, kb, kc) =
      segment_packet-IsStep key flags len s used (omega (arith, eb, b)) l at' in
    rw (sym eb, sym ec) (same, later, kb, kc)

run-IsAt :
    (key : Quintuple) (arrivals : List (Packet × Arrival)) (used : Option ℕ) (bytes : ℕ)
    (control : Bool) (s : StateConnectionFilter)
    → bytes < 2 ^ 31
    → All IsArrival arrivals
    → s.export_bytes ≡ bytes
    → s.export_control_packets ≡ control
    → IsAt bytes used (find_entry key s.export_list)
    → run key arrivals s ≡ ok (answers bytes control key arrivals used)
unfolding run answers
run-IsAt key [] used bytes control s b all eb ec at = refl
run-IsAt key ((p, other_protocol) ∷ rest) used bytes control s b all eb ec at =
    rw (process_packet-other p s all.0, run-IsAt key rest used bytes control s b all.1 eb ec at)
      refl
run-IsAt key ((p, segment k flags len) ∷ rest) used bytes control s b all eb ec at =
    elim (Bool-cases (key_eq key k)) [
      | inr h ↦
          let (found, kb, kc) = segment_packet-Kept key k flags len s h in
          rw
            (
              process_packet-segment p k flags len s all.0,
              h,
              run-IsAt key rest used bytes control (segment_packet k flags len s).1 b all.1
                  (kb ∙ eb) (kc ∙ ec) (subst (λ o. IsAt bytes used o) (sym found) at),
            )
            refl
      | inl h ↦
          let e : k ≡ key = sym (key_eq→eq key k h) in
          let here : IsArrival (p, segment key flags len) =
            subst (λ q. IsArrival (p, segment q flags len)) e all.0 in
          let (same, later, kb, kc) =
            segment_packet-Follows key flags len s used bytes control b here.4 eb ec at in
          rw
            (
              h,
              process_packet-segment p key flags len s here,
              run-IsAt key rest (answer bytes control flags len used).1 bytes control
                  (segment_packet key flags len s).1 b all.1 kb kc later,
              same,
            )
            refl
    ]

-- For a connection that is not in the list, StateConnectionFilter::processPacket answers its packets,
-- however those of other connections and protocols are mixed in, thus: a SYN opens the connection; FIN
-- and RST close it; SYN, FIN and RST packets are exported if exportControlPackets is set; any other
-- packet is exported exactly if the connection is open and the payloads of such packets since it was
-- opened, its own included, are less than exportBytes, and the first that is not closes the connection.
-- Every packet has an answer. exportBytes and the payloads are less than 2^31, and key and flags of the
-- TCP packets can be read.
pub run-answers :
    (key : Quintuple) (arrivals : List (Packet × Arrival)) (s : StateConnectionFilter)
    → s.export_bytes < 2 ^ 31
    → All IsArrival arrivals
    → find_entry key s.export_list ≡ none
    → run key arrivals s ≡ ok (answers s.export_bytes s.export_control_packets key arrivals none)
run-answers key arrivals s b all e =
    run-IsAt key arrivals none s.export_bytes s.export_control_packets s b all refl refl
      (subst (λ o. IsAt s.export_bytes none o) (sym e) closed)
