-- ===== src/Parser/Sequence/Loss.antt =====
-- Losses counted over a run of messages from one exporter.
use vermont.Base.{ℕ, ◌+◌, ◌-◌, ◌%◌, ◌^◌, ◌≤◌, ◌<◌, ◌≡◌, refl, ◌∙◌, List, [], ◌∷◌, true, arith}
use vermont.Parser.State.{SnInfo}
use vermont.Parser.Sequence.{compare_sn, update_info}

-- A message's sequence number and its numbers of data and template records.
pub record Message : Type 0 where
  pub sequence : ℕ
  pub data_records : ℕ
  pub template_records : ℕ

-- The entry of an exporter after more IPFIX messages.
pub after : List Message → SnInfo → SnInfo
after [] i = i
after (m ∷ ms) i =
    after ms (update_info true m.sequence m.data_records m.data_records m.template_records i)

-- The messages come in order and do not wrap: none begins before the end of the one before it.
abbrev pub InOrder : ℕ → List Message → Type 0
InOrder expected [] = expected < 2 ^ 32
InOrder expected (m ∷ ms) = (expected ≤ m.sequence) × InOrder (m.sequence + m.data_records) ms

-- The number that follows the last message, and the records in all of them.
abbrev pub last_sequence : ℕ → List Message → ℕ
last_sequence expected [] = expected
last_sequence expected (m ∷ ms) = last_sequence (m.sequence + m.data_records) ms

abbrev pub total_records : List Message → ℕ
total_records [] = 0
total_records (m ∷ ms) = m.data_records + total_records ms

InOrder-le :
    (expected : ℕ) (ms : List Message)
    → InOrder expected ms
    → (expected + total_records ms ≤ last_sequence expected ms)
      × (last_sequence expected ms < 2 ^ 32)
InOrder-le expected [] h = (omega arith, h)
InOrder-le expected (m ∷ ms) h = (
  omega (arith, (InOrder-le (m.sequence + m.data_records) ms h.1).0),
  (InOrder-le (m.sequence + m.data_records) ms h.1).1,
)

update_in_order :
    (m : Message) (i : SnInfo)
    → i.expected_sn ≤ m.sequence
    → m.sequence + m.data_records < 2 ^ 32
    → let j = update_info true m.sequence m.data_records m.data_records m.template_records i in
      (j.expected_sn ≡ m.sequence + m.data_records)
      × (j.lost_data_records % 2 ^ 32
          ≡ (i.lost_data_records + (m.sequence - i.expected_sn)) % 2 ^ 32)
      × (j.received_data_records ≡ (i.received_data_records + m.data_records) % 2 ^ 32)
      × (j.out_of_order_messages ≡ i.out_of_order_messages)
unfolding update_info compare_sn
update_in_order m i h k = ground arith

lost_from :
    (ms : List Message) (i : SnInfo) (e : ℕ)
    → i.expected_sn ≡ e
    → InOrder e ms
    → let j = after ms i in
      ((j.lost_data_records + j.received_data_records + e) % 2 ^ 32
        ≡ (i.lost_data_records + i.received_data_records + last_sequence e ms) % 2 ^ 32)
      × (j.out_of_order_messages ≡ i.out_of_order_messages)
unfolding after
lost_from [] i e q h = (refl, refl)
lost_from (m ∷ ms) i e q h =
    let k = InOrder-le (m.sequence + m.data_records) ms h.1 in
    let j : SnInfo =
      update_info true m.sequence m.data_records m.data_records m.template_records i in
    let u = update_in_order m i (omega arith) (omega arith) in
    let rest = lost_from ms j (m.sequence + m.data_records) u.0 h.1 in (omega arith, rest.1 ∙ u.3)

-- Over messages that come in order, and whose sequence numbers, and the numbers that follow them, stay
-- below 2^32, every record number from the first expected one to the last is counted once, as received
-- or as lost, and no message is taken to be out of order. The counters have thirty-two bits.
pub lost-received :
    (ms : List Message) (i : SnInfo)
    → InOrder i.expected_sn ms
    → let j = after ms i in
      ((j.lost_data_records + j.received_data_records + i.expected_sn) % 2 ^ 32
        ≡ (i.lost_data_records + i.received_data_records + last_sequence i.expected_sn ms) % 2 ^ 32)
      × (j.out_of_order_messages ≡ i.out_of_order_messages)
lost-received ms i h = lost_from ms i i.expected_sn refl h
