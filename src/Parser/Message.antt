-- ===== src/Parser/Message.antt =====
-- `IpfixParser::processIpfixPacket`, `processNetflowV9Packet` and `processPacket`.
--
-- `sizeof(IpfixHeader)` and `sizeof(NetflowV9Header)` count the member `data` and the padding behind
-- it (20 and 24 with four-byte alignment), while the first set begins where `data` lies (16 and 20).
use vermont.Base.{
  ℕ, suc, ◌+◌, ◌-◌, ◌%◌, ◌^◌, ◌==◌, ◌||◌, leb, ltb, if◌then◌else◌, ◌&&◌, not, Bool, true, false,
  List, [], ◌∷◌, Option, none, some, Outcome, ok, ◌>>=◌,
}
use vermont.Record.{
  SourceId, SetId, netflow_template, netflow_options_template, ipfix_template,
  ipfix_options_template, template_record,
}
use vermont.TemplateBuffer.{BufferedTemplate}
use vermont.Parser.Bytes.{read_u16, read_u32}
use vermont.Parser.State.{Parser, destroy, push, protocol_udp}
use vermont.Parser.Walk.{Round, more, finished, walk}
use vermont.Parser.TemplateSet.{process_template_set}
use vermont.Parser.OptionsSet.{process_options_template_set}
use vermont.Parser.DataSet.{process_data_set}
use vermont.Parser.Sequence.{account}
pub mod Safety
pub mod Time

-- What the loop over the sets carries: `numberOfDataRecords`, `numberOfTemplateRecords`, the parser,
-- and whether a set length stopped it with -1.
pub record Sets : Type 0 where
  pub data_records : ℕ
  pub template_records : ℕ
  pub parser : Parser
  pub failed : Bool

-- The build options SUPPORT_NETFLOWV9 and EXPORT_TIME_SANITY_CHECK.
pub record Build : Type 0 where
  pub netflow_v9 : Bool
  pub sanity_check : Bool

-- The counters are `uint16_t`.
abbrev pub count_templates : Sets → ℕ × Parser → Sets
count_templates t (n, s) = record t {
  template_records = (t.template_records + n) % 2 ^ 16;
  parser = s;
}

abbrev pub count_data : Sets → ℕ × Parser → Sets
count_data t (n, s) = record t { data_records = (t.data_records + n) % 2 ^ 16; parser = s }

-- `IPFIX_SetId_Data_Start`
abbrev pub data_start : ℕ
data_start = 256

module _ (build : Build) (junk : ℕ → ℕ) (now : ℕ) (source : SourceId) (message : List ℕ)
    (end_of_message : ℕ) where
  -- The `switch` on the set id: `template_id` and `options_id` are those of the protocol.
  unfoldable pub process_set : ℕ → SetId → ℕ → SetId → ℕ → ℕ → Sets → Outcome Sets
  process_set template_id templates options_id options id set t =
      if id == template_id
      then (process_template_set now source templates message set end_of_message t.parser >>= λ r.
          ok (count_templates t r))
      else (if id == options_id
          then (process_options_template_set junk now source options message set end_of_message
                t.parser
              >>= λ r. ok (count_templates t r))
          else (if leb data_start id
              then (process_data_set build.netflow_v9 now source message set end_of_message t.parser
                  >>= λ r. ok (count_data t r))
              else ok t))

  -- A set of a legal length, and the pointer behind it.
  unfoldable pub set_body : ℕ → SetId → ℕ → SetId → ℕ → ℕ → Sets → Outcome (Round Sets)
  set_body template_id templates options_id options len set t =
      if ltb len 3 then ok (finished (record t { failed = true })) else do
        id ← read_u16 message set
        t' ← process_set template_id templates options_id options id set t
        ok (more (set + len) t')

  -- One round of the loop of `processIpfixPacket`.
  unfoldable pub ipfix_round : ℕ → Sets → Outcome (Round Sets)
  ipfix_round set t = if ltb end_of_message (set + 4) then ok (finished t) else do
    len ← read_u16 message (set + 2)
    set_body 2 ipfix_template 3 ipfix_options_template len set t

  -- One round of the loop of `processNetflowV9Packet`, which also stops beyond `expected` records.
  unfoldable pub netflow_round : ℕ → ℕ → Sets → Outcome (Round Sets)
  netflow_round expected set t =
      if ltb expected (t.data_records + t.template_records)
      then ok (finished t)
      else (if ltb end_of_message (set + 4) then ok (finished t) else (do
        len ← read_u16 message (set + 2)
        set_body 0 netflow_template 1 netflow_options_template len set t))

-- The two results of a packet: 0 and -1.
pub data Status : Type 0 where
  success failure : Status

abbrev pub start_sets : Parser → Sets
start_sets s = record { data_records = 0; template_records = 0; parser = s; failed = false }

-- The statistics of the parser after a message.
unfoldable pub count_message : Sets → Parser → Parser
count_message t s = record s {
  stat_total_messages = s.stat_total_messages + 1;
  stat_total_data_records = s.stat_total_data_records + t.data_records;
  stat_total_template_records = s.stat_total_template_records + t.template_records;
}

-- The end of both functions: sequence numbers (for UDP alone), then statistics. `advance` is what a
-- message adds to the sequence number.
unfoldable pub finish_message : Bool → SourceId → ℕ → ℕ → Sets → Status × Parser
finish_message ipfix source sequence advance t =
    if t.failed
    then (failure, t.parser)
    else (let s : Parser =
          if source.protocol == protocol_udp
          then record t.parser {
            sn_info_map =
                account ipfix source sequence advance t.data_records t.template_records
                  t.parser.sn_info_map;
          }
          else t.parser in
        (success, count_message t s))

-- `processIpfixPacket`
unfoldable pub process_ipfix_packet :
    Build → (ℕ → ℕ) → ℕ → List ℕ → ℕ → SourceId → Parser → Outcome (Status × Parser)
process_ipfix_packet build junk now message len source s =
    if ltb len 20 then ok (failure, s) else do
      domain ← read_u32 message 12
      export_time ← read_u32 message 4
      header_length ← read_u16 message 2
      let source' = record source { observation_domain_id = domain; export_time = export_time }
      if not (header_length == len) then ok (failure, s) else (do
        sequence ← read_u32 message 8
        t ← walk (ipfix_round build junk now source' message len) (suc len) 16 (start_sets s)
        ok (finish_message true source' sequence t.data_records t))

-- `processNetflowV9Packet`
unfoldable pub process_netflow_v9_packet :
    Build → (ℕ → ℕ) → ℕ → List ℕ → ℕ → SourceId → Parser → Outcome (Status × Parser)
process_netflow_v9_packet build junk now message len source s =
    if ltb len 24 then ok (failure, s) else do
      domain ← read_u32 message 16
      up_time ← read_u32 message 4
      export_time ← read_u32 message 8
      let source' = record source {
        observation_domain_id = domain;
        sys_up_time = up_time;
        export_time = export_time;
      }
      expected ← read_u16 message 2
      sequence ← read_u32 message 12
      t ←
          walk (netflow_round build junk now source' message len expected) (suc len) 20
            (start_sets s)
      ok (finish_message false source' sequence 1 t)

-- `isWithinTimeBoundary`: the differences are of `uint32_t`, so the first comparison with 0 is never
-- true.
unfoldable pub is_within_time_boundary : Bool → ℕ → ℕ → Bool
is_within_time_boundary sanity_check now export_time =
    if sanity_check
    then not (
        ltb ((now + 2 ^ 32 - export_time + 3600) % 2 ^ 32) 0
        || ltb 86400 ((now + 2 ^ 32 - export_time) % 2 ^ 32))
    else true

-- `processPacket`: the end of a transport session, or a message of either version.
unfoldable pub process_packet :
    Build → (ℕ → ℕ) → ℕ → List ℕ → ℕ → SourceId → Parser → Outcome (Status × Parser)
process_packet build junk now message len source s =
    if len == 0 then ok (success, destroy source 0 true s) else do
      version ← read_u16 message 0
      if version == 10
          then (do
            export_time ← read_u32 message 4
            (if is_within_time_boundary build.sanity_check now export_time
                then process_ipfix_packet build junk now message len source s
                else ok (failure, s)))
          else (if (version == 9) && build.netflow_v9
              then (do
                export_time ← read_u32 message 8
                (if is_within_time_boundary build.sanity_check now export_time
                    then process_netflow_v9_packet build junk now message len source s
                    else ok (failure, s)))
              else ok (failure, s))

-- `resendBufferedTemplates`, which `postReconfiguration` calls.
unfoldable pub resend_buffered_templates : List BufferedTemplate → Parser → Parser
resend_buffered_templates [] s = s
resend_buffered_templates (bt ∷ chain) s =
    resend_buffered_templates chain (push (template_record bt.source_id bt.template_info) s)

unfoldable pub post_reconfiguration : Parser → Parser
post_reconfiguration s = resend_buffered_templates s.template_buffer s
