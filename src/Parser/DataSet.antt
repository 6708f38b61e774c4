-- ===== src/Parser/DataSet.antt =====
-- `IpfixParser::processDataSet`.
use vermont.Base.{
  ℕ, suc, ◌+◌, ◌==◌, ltb, if◌then◌else◌, Bool, true, false, List, [], ◌∷◌, ◌++◌, length, Option,
  none, some, Outcome, ok, ◌>>=◌,
}
use vermont.Record.{
  SourceId, SetId, netflow_template, netflow_options_template, ipfix_template,
  ipfix_options_template, FieldInfo, TemplateInfo, data_record,
}
use vermont.TemplateBuffer.{BufferedTemplate, get_buffered_template}
use vermont.Parser.Bytes.{read_u8, read_u16}
use vermont.Parser.State.{Parser, push}
use vermont.Parser.Walk.{Round, more, finished, walk}
pub mod Fixed
pub mod Variable
pub mod Rounds
pub mod Safety

-- The set ids that `processDataSet` knows, with or without SUPPORT_NETFLOWV9.
abbrev pub is_handled : Bool → SetId → Bool
is_handled netflow ipfix_template = true
is_handled netflow ipfix_options_template = true
is_handled netflow netflow_template = netflow
is_handled netflow netflow_options_template = netflow

-- `templateBuffer->getBufferedTemplate`
unfoldable pub lookup : ℕ → SourceId → ℕ → Parser → Option BufferedTemplate × Parser
lookup now source id s =
    let (found, chain, events) = get_buffered_template now source id s.template_buffer in
    (found, record s { template_buffer = chain; sent = s.sent ++ events })

module _ (source : SourceId) (message : List ℕ) (end_of_set : ℕ) where
  -- One round of the loop over records of a fixed length.
  unfoldable pub fixed_round : TemplateInfo → ℕ → ℕ → ℕ × Parser → Outcome (Round (ℕ × Parser))
  fixed_round ti record_length p (count, s) =
      if ltb end_of_set (p + record_length)
      then ok (finished (count, s))
      else ok (more (p + record_length) (count + 1, push (data_record source ti record_length p) s))

  -- `fieldLength` of a field at `record + recordLength`, and where its bytes begin; `none` where the
  -- length lies beyond the set.
  unfoldable pub field_length : FieldInfo → ℕ → ℕ → Outcome (Option (ℕ × ℕ))
  field_length f p record_length =
      if f.is_variable_length
      then (if ltb end_of_set (p + record_length + 1) then ok none else (do
        short ← read_u8 message (p + record_length)
        if short == 255
            then (if ltb end_of_set (p + (record_length + 1) + 2) then ok none else (do
              long ← read_u16 message (p + (record_length + 1))
              ok (some (long, record_length + 3))))
            else ok (some (short, record_length + 1))))
      else ok (some (f.type.len, record_length))

  -- A field with the place and the length that it has in this record.
  abbrev pub placed : FieldInfo → ℕ → ℕ → FieldInfo
  placed f offset len = record f {
    type = record { id = f.type.id; enterprise = f.type.enterprise; len = len };
    offset = offset;
  }

  abbrev pub cons_placed :
      FieldInfo → Option (List FieldInfo × ℕ) → Outcome (Option (List FieldInfo × ℕ))
  cons_placed f none = ok none
  cons_placed f (some (fs, record_length)) = ok (some (f ∷ fs, record_length))

  -- The loop over the fields of a record: the fields in their places, and `recordLength` behind them.
  unfoldable pub place_fields : List FieldInfo → ℕ → ℕ → Outcome (Option (List FieldInfo × ℕ))
  place_fields [] p record_length = ok (some ([], record_length))
  place_fields (f ∷ fs) p record_length = do
    found ← field_length f p record_length
    elim found [
      | none ↦ ok none
      | some (len, offset) ↦ place_fields fs p (offset + len) >>= cons_placed (placed f offset len)
    ]

  -- The check after each of the two loops.
  abbrev pub within_set : ℕ → Option (List FieldInfo × ℕ) → Option (List FieldInfo × ℕ)
  within_set p none = none
  within_set p (some (fs, record_length)) =
      if ltb end_of_set (p + record_length) then none else some (fs, record_length)

  abbrev pub variable_record :
      TemplateInfo
      → List FieldInfo
      → ℕ
      → ℕ × Parser
      → Option (List FieldInfo × ℕ)
      → Round (ℕ × Parser)
  variable_record ti scopes p state none = finished state
  variable_record ti scopes p (count, s) (some (fields, record_length)) =
      let ti' : TemplateInfo = record ti { field_info = fields; scope_info = scopes } in
      more (p + record_length) (count + 1, push (data_record source ti' record_length p) s)

  abbrev pub variable_fields :
      TemplateInfo → ℕ → ℕ × Parser → Option (List FieldInfo × ℕ) → Outcome (Round (ℕ × Parser))
  variable_fields ti p state none = ok (finished state)
  variable_fields ti p state (some (scopes, record_length)) =
      place_fields ti.field_info p record_length >>= λ r.
      ok (variable_record ti scopes p state (within_set p r))

  -- One round of the loop over records of variable length.
  unfoldable pub variable_round : TemplateInfo → ℕ → ℕ × Parser → Outcome (Round (ℕ × Parser))
  variable_round ti p state =
      if ltb p end_of_set
      then (place_fields ti.scope_info p 0 >>= λ r. variable_fields ti p state (within_set p r))
      else ok (finished state)

  -- The records of a set whose first one begins at `p`. The loop over records of a fixed length is
  -- entered only where its own test holds, so the check before it adds nothing.
  unfoldable pub data_records : BufferedTemplate → ℕ → ℕ → Parser → Outcome (ℕ × Parser)
  data_records bt fuel p s =
      let ti : TemplateInfo = bt.template_info in
      if ltb bt.record_length 65535
      then walk (fixed_round ti bt.record_length) fuel p (0, s)
      else (if ltb end_of_set (p + length ti.field_info + length ti.scope_info)
          then ok (0, s)
          else walk (variable_round ti) fuel p (0, s))

-- `processDataSet` for the template that was found.
unfoldable pub data_set :
    Bool → SourceId → List ℕ → ℕ → ℕ → Option BufferedTemplate × Parser → Outcome (ℕ × Parser)
data_set netflow source message set end_of_message (none, s) = ok (0, s)
data_set netflow source message set end_of_message (some bt, s) = do
  len ← read_u16 message (set + 2)
  let end_of_set = set + len
  if ltb end_of_message end_of_set
      then ok (0, s)
      else (if is_handled netflow bt.template_info.set_id
          then data_records source message end_of_set bt (suc len) (set + 4) s
          else ok (0, s))

-- `processDataSet`: the number of records and the parser after them.
unfoldable pub process_data_set :
    Bool → ℕ → SourceId → List ℕ → ℕ → ℕ → Parser → Outcome (ℕ × Parser)
process_data_set netflow now source message set end_of_message s = do
  id ← read_u16 message set
  data_set netflow source message set end_of_message (lookup now source id s)
