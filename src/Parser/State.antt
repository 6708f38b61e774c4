-- ===== src/Parser/State.antt =====
-- The state of `IpfixParser`: its template buffer, its settings, its statistics and what it has sent.
pub mod Invariant
use vermont.Base.{ℕ, ◌+◌, ◌==◌, ◌&&◌, ltb, if◌then◌else◌, Bool, false, List, [], ◌∷◌, ◌++◌}
use vermont.Record.{SourceId, TemplateInfo, Event, template_record}
use vermont.TemplateBuffer.{BufferedTemplate, buffer_template, destroy_buffered_template}

-- `IpfixParser::SNInfo`
pub record SnInfo : Type 0 where
  pub expected_sn : ℕ
  pub received_messages : ℕ
  pub received_data_records : ℕ
  pub received_template_records : ℕ
  pub out_of_order_messages : ℕ
  pub lost_messages : ℕ
  pub lost_data_records : ℕ

-- `sent` holds what went to `ipfixRecordSender`, oldest first.
pub record Parser : Type 0 where
  pub template_buffer : List BufferedTemplate
  pub template_lifetime : ℕ
  pub stat_total_data_records : ℕ
  pub stat_total_template_records : ℕ
  pub stat_total_messages : ℕ
  pub sn_info_map : List (SourceId × SnInfo)
  pub sent : List Event

-- `push`
unfoldable pub push : Event → Parser → Parser
push e s = record s { sent = s.sent ++ e ∷ [] }

-- `templateBuffer->destroyBufferedTemplate`
unfoldable pub destroy : SourceId → ℕ → Bool → Parser → Parser
destroy source id all s =
    let (kept, events) = destroy_buffered_template source id all s.template_buffer in
    record s { template_buffer = kept; sent = s.sent ++ events }

-- `IPFIX_protocolIdentifier_UDP`
abbrev pub protocol_udp : ℕ
protocol_udp = 17

-- `bt->expires`, written after the template went into the buffer: only the head has it.
abbrev pub set_head_expires : ℕ → List BufferedTemplate → List BufferedTemplate
set_head_expires expires [] = []
set_head_expires expires (bt ∷ chain) = record bt { expires = expires } ∷ chain

-- The end of a template record: `bufferTemplate`, the expiry time, and the record that is sent.
unfoldable pub learn : ℕ → BufferedTemplate → Parser → Parser
learn now bt s =
    let (chain, events) = buffer_template now bt s.template_buffer in
    let expires : ℕ =
      if (bt.source_id.protocol == protocol_udp) && ltb 0 s.template_lifetime
      then now + s.template_lifetime
      else 0 in
    push (template_record bt.source_id bt.template_info)
      (record s { template_buffer = set_head_expires expires chain; sent = s.sent ++ events })
