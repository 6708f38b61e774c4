-- ===== src/Record.antt =====
-- src/modules/ipfix/IpfixRecord.hpp: information elements, template descriptions, the identity of an
-- exporter, and the records that travel between modules.
--
-- Arrays with their counts are lists: `fieldInfo` and `fieldCount` are `field_info`, `scopeInfo` and
-- `scopeCount` are `scope_info`. Numbers are unsigned and below the width of their field.
use vermont.Base.{ℕ, Bool, ◌&&◌, List, length, take, bytes_eq, ◌==◌, if◌then◌else◌}
pub mod Source

-- `InformationElement::IeInfo`
pub record IeInfo : Type 0 where
  pub id : ℕ
  pub enterprise : ℕ
  pub len : ℕ

-- `TemplateInfo::FieldInfo`, without the private data of the aggregator.
pub record FieldInfo : Type 0 where
  pub type : IeInfo
  pub offset : ℕ
  pub is_variable_length : Bool

-- `TemplateInfo::SetId`; its numbers are those of `set_number`.
pub data SetId : Type 0 where
  netflow_template netflow_options_template ipfix_template ipfix_options_template : SetId

abbrev pub set_number : SetId → ℕ
set_number SetId.netflow_template = 0
set_number SetId.netflow_options_template = 1
set_number SetId.ipfix_template = 2
set_number SetId.ipfix_options_template = 3

-- `TemplateInfo`
pub record TemplateInfo : Type 0 where
  pub template_id : ℕ
  pub set_id : SetId
  pub field_info : List FieldInfo
  pub scope_info : List FieldInfo

-- `IpfixRecord::SourceID::ExporterAddress`
pub record ExporterAddress : Type 0 where
  pub ip : List ℕ
  pub len : ℕ

-- `IpfixRecord::SourceID`
pub record SourceId : Type 0 where
  pub observation_domain_id : ℕ
  pub sys_up_time : ℕ
  pub export_time : ℕ
  pub exporter_address : ExporterAddress
  pub exporter_port : ℕ
  pub receiver_port : ℕ
  pub protocol : ℕ
  pub file_descriptor : ℕ

-- `len` equal, and `memcmp(ip, x.ip, len) == 0`
abbrev pub same_address : ExporterAddress → ExporterAddress → Bool
same_address a b = (a.len == b.len) && bytes_eq (take a.len a.ip) (take a.len b.ip)

-- `SourceID::equalIgnoringODID`; 132 is SCTP.
unfoldable pub equal_ignoring_odid : SourceId → SourceId → Bool
equal_ignoring_odid s x =
    if s.protocol == 132
    then s.file_descriptor == x.file_descriptor
    else (s.exporter_port == x.exporter_port)
      && ((s.file_descriptor == x.file_descriptor)
          && same_address s.exporter_address x.exporter_address)

-- `SourceID::operator==`
unfoldable pub source_eq : SourceId → SourceId → Bool
source_eq s x =
    if s.protocol == 132
    then (s.observation_domain_id == x.observation_domain_id)
      && (s.file_descriptor == x.file_descriptor)
    else (s.observation_domain_id == x.observation_domain_id)
      && ((s.exporter_port == x.exporter_port)
          && ((s.file_descriptor == x.file_descriptor)
              && same_address s.exporter_address x.exporter_address))

-- `operator==` and `operator<` on `IeInfo`
unfoldable pub ie_eq : IeInfo → IeInfo → Bool
ie_eq a b = (a.id == b.id) && (a.enterprise == b.enterprise)

-- What a module sends: `IpfixTemplateRecord`, `IpfixTemplateDestructionRecord` and
-- `IpfixDataRecord`. A data record names its bytes by length and offset in the message.
pub data Event : Type 0 where
  template_record : SourceId → TemplateInfo → Event
  destruction_record : SourceId → TemplateInfo → Event
  data_record : SourceId → TemplateInfo → ℕ → ℕ → Event
