-- ===== src/Parser/TemplateSet.antt =====
-- `IpfixParser::processTemplateSet`.
use vermont.Base.{
  ℕ, suc, ◌+◌, ◌==◌, ltb, if◌then◌else◌, Bool, true, false, List, [], Option, none, some, Outcome,
  ok, ◌>>=◌,
}
use vermont.Record.{
  SourceId, SetId, netflow_template, netflow_options_template, ipfix_template,
  ipfix_options_template, FieldInfo,
}
use vermont.TemplateBuffer.{BufferedTemplate}
use vermont.Parser.Bytes.{read_u16}
use vermont.Parser.State.{Parser, destroy, learn}
use vermont.Parser.Fields.{read_fields, is_length_varying, final_offsets}
use vermont.Parser.Walk.{Round, more, finished, walk}
pub mod Safety

-- `setId == TemplateInfo::IpfixTemplate`
abbrev pub is_ipfix_template : SetId → Bool
is_ipfix_template ipfix_template = true
is_ipfix_template netflow_template = false
is_ipfix_template netflow_options_template = false
is_ipfix_template ipfix_options_template = false

-- The template that a record with these fields announces.
abbrev pub new_template : SourceId → SetId → ℕ → List FieldInfo → ℕ → BufferedTemplate
new_template source set_id id fields total =
    let varying = is_length_varying fields in
    record {
      source_id = source;
      template_info = record {
        template_id = id;
        set_id = set_id;
        field_info = final_offsets varying fields;
        scope_info = [];
      };
      record_length = if varying then 65535 else total;
      expires = 0;
    }

module _ (now : ℕ) (source : SourceId) (set_id : SetId) (message : List ℕ) (end_of_set : ℕ) where
  -- The parser with a record of `n` fields, or without it where they exceed the set.
  abbrev pub template_fields : ℕ → ℕ × Parser → Option (List FieldInfo × ℕ × ℕ) → Round (ℕ × Parser)
  template_fields id (count, s) none = finished (count, s)
  template_fields id (count, s) (some (fields, p, total)) =
      more p (count + 1, learn now (new_template source set_id id fields total) s)

  -- A withdrawal if there are no fields, else a template.
  abbrev pub template_body : ℕ → ℕ → ℕ → ℕ × Parser → Outcome (Round (ℕ × Parser))
  template_body id n p (count, s) =
      if n == 0
      then ok (more p (count + 1, destroy source id false s))
      else (read_fields message (is_ipfix_template set_id) end_of_set n p 0 >>= λ r.
          ok (template_fields id (count, s) r))

  -- One round of the loop, with `numberOfRecords` and the parser.
  unfoldable pub template_round : ℕ → ℕ × Parser → Outcome (Round (ℕ × Parser))
  template_round p state = if ltb end_of_set (p + 4) then ok (finished state) else do
    id ← read_u16 message p
    n ← read_u16 message (p + 2)
    template_body id n (p + 4) state

-- `processTemplateSet`: the number of records and the parser after them. A record takes four bytes at
-- least, so the set's length is fuel enough.
unfoldable pub process_template_set :
    ℕ → SourceId → SetId → List ℕ → ℕ → ℕ → Parser → Outcome (ℕ × Parser)
process_template_set now source set_id message set end_of_message s = do
  len ← read_u16 message (set + 2)
  let end_of_set = set + len
  if ltb end_of_message end_of_set
      then ok (0, s)
      else walk (template_round now source set_id message end_of_set) (suc len) (set + 4) (0, s)
