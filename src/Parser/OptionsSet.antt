-- ===== src/Parser/OptionsSet.antt =====
-- `IpfixParser::processOptionsTemplateSet`.
--
-- `junk` is what `malloc` leaves in the enterprise numbers of the scope fields: the code writes them
-- only for enterprise fields, and for the others it writes `fieldInfo[scopeNo]`, which may lie beyond
-- that array.
use vermont.Base.{
  ℕ, zero, suc, ◌+◌, ◌-◌, ◌/◌, ◌%◌, ◌^◌, ◌==◌, ltb, leb, if◌then◌else◌, ◌&&◌, ◌||◌, Bool, true,
  false, List, [], ◌∷◌, length, Option, none, some, Outcome, ok, overflow, ◌>>=◌,
}
use vermont.Record.{
  SourceId, SetId, netflow_template, netflow_options_template, ipfix_template,
  ipfix_options_template, FieldInfo,
}
use vermont.TemplateBuffer.{BufferedTemplate}
use vermont.Parser.Bytes.{read_u16, read_u32}
use vermont.Parser.State.{Parser, destroy, learn}
use vermont.Parser.Fields.{field_at, cons_field, read_fields, is_length_varying, final_offsets}
use vermont.Parser.Walk.{Round, more, finished, walk}
pub mod Scopes
pub mod Safety
pub mod Overflow

-- `setId == TemplateInfo::IpfixOptionsTemplate`
abbrev pub is_ipfix_options : SetId → Bool
is_ipfix_options ipfix_options_template = true
is_ipfix_options netflow_template = false
is_ipfix_options netflow_options_template = false
is_ipfix_options ipfix_template = false

-- `scopeCount` and `fieldCount` from the header's `fieldCount` and `scopeCount`; the difference is
-- kept in sixteen bits.
unfoldable pub counts : SetId → ℕ → ℕ → ℕ × ℕ
counts ipfix_options_template field_count scope_count =
    (scope_count, (field_count + 2 ^ 16 - scope_count) % 2 ^ 16)
counts netflow_options_template field_count scope_count = (field_count / 4, scope_count / 4)
counts ipfix_template field_count scope_count = (0, 0)
counts netflow_template field_count scope_count = (0, 0)

module _ (junk : ℕ → ℕ) (message : List ℕ) (ipfix : Bool) (end_of_set field_count : ℕ) where
  -- What follows the id and the length of scope field number `i`.
  unfoldable pub scope_enterprise : ℕ → ℕ → ℕ → ℕ → ℕ → Outcome (Option (FieldInfo × ℕ × ℕ))
  scope_enterprise i p record_length id len =
      let record_length' = (record_length + len) % 2 ^ 16 in
      let scope = λ (id' : ℕ) (enterprise : ℕ). field_at id' enterprise len record_length in
      if leb 0x8000 id && ipfix
      then (if ltb end_of_set (p + 8) then ok none else (do
        enterprise ← read_u32 message (p + 4)
        ok (some (scope (id - 0x8000) enterprise, p + 8, record_length'))))
      else (if ltb i field_count
          then ok (some (scope id (junk i), p + 4, record_length'))
          else overflow)

  unfoldable pub read_scope : ℕ → ℕ → ℕ → Outcome (Option (FieldInfo × ℕ × ℕ))
  read_scope i p record_length = if ltb end_of_set (p + 4) then ok none else do
    id ← read_u16 message p
    len ← read_u16 message (p + 2)
    scope_enterprise i p record_length id len

  -- The loop over `scopeNo`, with the rounds left and the number of the next field.
  unfoldable pub read_scopes : ℕ → ℕ → ℕ → ℕ → Outcome (Option (List FieldInfo × ℕ × ℕ))
  read_scopes zero i p record_length = ok (some ([], p, record_length))
  read_scopes (suc n) i p record_length = do
    scope ← read_scope i p record_length
    elim scope [
      | none ↦ ok none
      | some (f, p', record_length') ↦ read_scopes n (i + 1) p' record_length' >>= cons_field f
    ]

-- The template that a record with these scope fields and fields announces.
abbrev pub new_options_template :
    SourceId → SetId → ℕ → List FieldInfo → List FieldInfo → ℕ → BufferedTemplate
new_options_template source set_id id scopes fields total =
    let varying = is_length_varying scopes || is_length_varying fields in
    record {
      source_id = source;
      template_info = record {
        template_id = id;
        set_id = set_id;
        field_info = final_offsets varying fields;
        scope_info = final_offsets varying scopes;
      };
      record_length = if varying then 65535 else total;
      expires = 0;
    }

module _ (junk : ℕ → ℕ) (now : ℕ) (source : SourceId) (set_id : SetId) (message : List ℕ)
    (end_of_set : ℕ) where
  abbrev pub options_learn :
      ℕ → List FieldInfo → ℕ × Parser → Option (List FieldInfo × ℕ × ℕ) → Round (ℕ × Parser)
  options_learn id scopes (count, s) none = finished (count, s)
  options_learn id scopes (count, s) (some (fields, p, total)) =
      more p (count + 1, learn now (new_options_template source set_id id scopes fields total) s)

  abbrev pub options_fields :
      ℕ → ℕ → ℕ × Parser → Option (List FieldInfo × ℕ × ℕ) → Outcome (Round (ℕ × Parser))
  options_fields id field_count state none = ok (finished state)
  options_fields id field_count state (some (scopes, p, record_length)) =
      read_fields message (is_ipfix_options set_id) end_of_set field_count p record_length >>= λ r.
      ok (options_learn id scopes state r)

  abbrev pub options_scopes : ℕ → ℕ × ℕ → ℕ → ℕ × Parser → Outcome (Round (ℕ × Parser))
  options_scopes id (scope_count, field_count) p state =
      read_scopes junk message (is_ipfix_options set_id) end_of_set field_count scope_count 0 p 0
      >>= options_fields id field_count state

  -- A withdrawal if there are no fields, else a template with a longer header, at `p`.
  unfoldable pub options_body : ℕ → ℕ → ℕ → ℕ × Parser → Outcome (Round (ℕ × Parser))
  options_body id n p (count, s) =
      if n == 0
      then ok (more (p + 4) (count + 1, destroy source id false s))
      else (if ltb end_of_set (p + 6) then ok (finished (count, s)) else (do
        scope_count ← read_u16 message (p + 4)
        options_scopes id (counts set_id n scope_count) (p + 6) (count, s)))

  -- One round of the loop, with `numberOfRecords` and the parser.
  unfoldable pub options_round : ℕ → ℕ × Parser → Outcome (Round (ℕ × Parser))
  options_round p state =
      if ltb end_of_set (p + 4)
      then ok (finished state)
      else do id ← read_u16 message p; n ← read_u16 message (p + 2); options_body id n p state

-- `processOptionsTemplateSet`
unfoldable pub process_options_template_set :
    (ℕ → ℕ) → ℕ → SourceId → SetId → List ℕ → ℕ → ℕ → Parser → Outcome (ℕ × Parser)
process_options_template_set junk now source set_id message set end_of_message s = do
  len ← read_u16 message (set + 2)
  let end_of_set = set + len
  if ltb end_of_message end_of_set
      then ok (0, s)
      else walk (options_round junk now source set_id message end_of_set) (suc len) (set + 4) (0, s)
