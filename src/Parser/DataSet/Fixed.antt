-- ===== src/Parser/DataSet/Fixed.antt =====
-- Data sets of records of a fixed length.
use vermont.Base.{
  ℕ, zero, suc, ◌+◌, ◌*◌, ◌≤◌, ◌<◌, ◌≡◌, ap, ◌∙◌, List, [], ◌∷◌, ◌++◌, append-nil, append_assoc, ok,
  out_of_fuel, ltb, true, false, arith,
}
use vermont.Record.{SourceId, TemplateInfo, Event, data_record}
use vermont.Parser.State.{Parser, push}
use vermont.Parser.Walk.{more, walk, walk-stuck}
use vermont.TemplateBuffer.{BufferedTemplate}
use vermont.Parser.DataSet.{fixed_round, data_records}

-- `n` data records, one behind the other from `p` on.
abbrev pub records_from : SourceId → TemplateInfo → ℕ → ℕ → ℕ → List Event
records_from source ti record_length p zero = []
records_from source ti record_length p (suc n) =
    data_record source ti record_length p
    ∷ records_from source ti record_length (p + record_length) n

-- The parser once these events are sent.
abbrev pub send_all : List Event → Parser → Parser
send_all events s = record s { sent = s.sent ++ events }

module _ (source : SourceId) (message : List ℕ) (end_of_set : ℕ) (ti : TemplateInfo)
    (record_length : ℕ) where
  -- The loop sends every whole record that fits, in order, and nothing else: `n` of them, if `n`
  -- records end within the set and one more would not.
  fixed_walk :
      (n fuel p count : ℕ) (s : Parser)
      → n < fuel
      → p + n * record_length ≤ end_of_set
      → end_of_set < p + n * record_length + record_length
      → walk (fixed_round source message end_of_set ti record_length) fuel p (count, s)
        ≡ ok (count + n, send_all (records_from source ti record_length p n) s)
  unfolding walk fixed_round push
  fixed_walk n zero p count s f h k = absurd (omega arith)
  fixed_walk zero (suc fuel) p count s f h k =
      let last : ltb end_of_set (p + record_length) ≡ true = ground arith in
      rw last (ground (arith, append-nil s.sent))
  fixed_walk (suc n) (suc fuel) p count s f h k =
      let fits : ltb end_of_set (p + record_length) ≡ false = ground arith in
      rw fits (
        fixed_walk n fuel (p + record_length) (count + 1) _ (omega arith) (omega arith)
          (omega arith)
        ∙ ground (
          arith,
          append_assoc s.sent (data_record source ti record_length p ∷ [])
              (records_from source ti record_length (p + record_length) n),
        ))

-- A template whose data records are empty: the loop never ends, however long it runs.
fixed_walk_stuck :
    (source : SourceId) (message : List ℕ) (end_of_set : ℕ) (ti : TemplateInfo) (fuel p : ℕ)
    (state : ℕ × Parser)
    → p ≤ end_of_set
    → walk (fixed_round source message end_of_set ti 0) fuel p state ≡ out_of_fuel
unfolding fixed_round
fixed_walk_stuck source message end_of_set ti fuel p state h =
    walk-stuck (fixed_round source message end_of_set ti 0) p stay fuel state
  where
    stay :
        (x : ℕ × Parser)
        → (y : ℕ × Parser) × (fixed_round source message end_of_set ti 0 p x ≡ ok (more p y))
    stay (count, s) =
        let fits : ltb end_of_set (p + 0) ≡ false = ground arith in
        ((count + 1, push (data_record source ti 0 p) s), rw fits (ground arith))

-- A template whose data records are empty makes `processDataSet` send empty records for ever: its loop
-- over the set does not end, whatever the number of rounds.
pub data_records_stuck :
    (source : SourceId) (message : List ℕ) (end_of_set : ℕ) (bt : BufferedTemplate) (fuel p : ℕ)
    (s : Parser)
    → bt.record_length ≡ 0
    → p ≤ end_of_set
    → data_records source message end_of_set bt fuel p s ≡ out_of_fuel
unfolding data_records
data_records_stuck source message end_of_set bt fuel p s e h =
    let fixed : ltb bt.record_length 65535 ≡ true = ground arith in
    rw (fixed, e) (fixed_walk_stuck source message end_of_set bt.template_info fuel p (0, s) h)

-- For a template whose data records have `record_length` bytes, `processDataSet` sends the whole
-- records that fit into the set, one behind the other, and nothing else: `n` of them, if `n` records
-- end within the set and one more would not.
pub data_records_fixed :
    (source : SourceId) (message : List ℕ) (end_of_set : ℕ) (bt : BufferedTemplate) (n fuel p : ℕ)
    (s : Parser)
    → bt.record_length < 65535
    → n < fuel
    → p + n * bt.record_length ≤ end_of_set
    → end_of_set < p + n * bt.record_length + bt.record_length
    → data_records source message end_of_set bt fuel p s
      ≡ ok (n, send_all (records_from source bt.template_info bt.record_length p n) s)
unfolding data_records
data_records_fixed source message end_of_set bt n fuel p s small f h k =
    let fixed : ltb bt.record_length 65535 ≡ true = ground arith in
    rw fixed (
      fixed_walk source message end_of_set bt.template_info bt.record_length n fuel p 0 s f h k
      ∙ ap (λ c. ok (c, send_all (records_from source bt.template_info bt.record_length p n) s))
          (omega arith))
