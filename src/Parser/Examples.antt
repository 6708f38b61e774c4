-- ===== src/Parser/Examples.antt =====
-- Messages and states for the tests.
use vermont.Base.{ℕ, true, false, List, [], ◌∷◌, ◌++◌}
use vermont.Record.{SourceId, TemplateInfo, FieldInfo, ipfix_template}
use vermont.TemplateBuffer.{BufferedTemplate}
use vermont.Parser.State.{Parser}
use vermont.Parser.Message.{Build}

-- An exporter at 10.0.0.1:4739, over UDP.
abbrev pub exporter : SourceId
exporter = record {
  observation_domain_id = 0;
  sys_up_time = 0;
  export_time = 0;
  exporter_address = record { ip = 10 ∷ 0 ∷ 0 ∷ 1 ∷ []; len = 4 };
  exporter_port = 4739;
  receiver_port = 4739;
  protocol = 17;
  file_descriptor = 5;
}

abbrev pub default_build : Build
default_build = record { netflow_v9 = true; sanity_check = false }

abbrev pub fresh : Parser
fresh = record {
  template_buffer = [];
  template_lifetime = 70;
  stat_total_data_records = 0;
  stat_total_template_records = 0;
  stat_total_messages = 0;
  sn_info_map = [];
  sent = [];
}

-- Template 256 with sourceIPv4Address and octetDeltaCount, four bytes each.
abbrev pub template_set : List ℕ
template_set = 0 ∷ 2 ∷ 0 ∷ 16 ∷ 1 ∷ 0 ∷ 0 ∷ 2 ∷ 0 ∷ 8 ∷ 0 ∷ 4 ∷ 0 ∷ 1 ∷ 0 ∷ 4 ∷ []

-- One data record of template 256, and two bytes of padding.
abbrev pub data_set_bytes : List ℕ
data_set_bytes = 1 ∷ 0 ∷ 0 ∷ 14 ∷ 10 ∷ 0 ∷ 0 ∷ 9 ∷ 0 ∷ 0 ∷ 5 ∷ 220 ∷ 0 ∷ 0 ∷ []

-- Export time 1000, sequence number 7, domain 3.
abbrev pub header : ℕ → List ℕ
header len = 0 ∷ 10 ∷ 0 ∷ len ∷ 0 ∷ 0 ∷ 3 ∷ 232 ∷ 0 ∷ 0 ∷ 0 ∷ 7 ∷ 0 ∷ 0 ∷ 0 ∷ 3 ∷ []

abbrev pub message : List ℕ
message = header 46 ++ template_set ++ data_set_bytes

abbrev pub domain_3 : SourceId
domain_3 = record exporter { observation_domain_id = 3; export_time = 1000 }

abbrev pub address_field : FieldInfo
address_field = record {
  type = record { id = 8; enterprise = 0; len = 4 };
  offset = 0;
  is_variable_length = false;
}

abbrev pub octets_field : FieldInfo
octets_field = record {
  type = record { id = 1; enterprise = 0; len = 4 };
  offset = 4;
  is_variable_length = false;
}

abbrev pub template_256 : TemplateInfo
template_256 = record {
  template_id = 256;
  set_id = ipfix_template;
  field_info = address_field ∷ octets_field ∷ [];
  scope_info = [];
}

abbrev pub buffered_256 : BufferedTemplate
buffered_256 = record {
  source_id = domain_3;
  template_info = template_256;
  record_length = 8;
  expires = 120;
}

-- A template of the same exporter whose only field takes no bytes.
abbrev pub buffered_empty : BufferedTemplate
buffered_empty = record {
  source_id = domain_3;
  template_info = record template_256 { template_id = 257; field_info = [] };
  record_length = 0;
  expires = 0;
}

-- Another exporter's template of the same id.
abbrev pub other_exporter : SourceId
other_exporter = record exporter { exporter_port = 9995; observation_domain_id = 3 }

abbrev pub buffered_other : BufferedTemplate
buffered_other = record buffered_256 { source_id = other_exporter; expires = 0 }

abbrev pub knowing : Parser
knowing = record fresh { template_buffer = buffered_256 ∷ buffered_other ∷ [] }

-- Options template 258 of one scope field and no other.
abbrev pub scope_only : List ℕ
scope_only = 1 ∷ 2 ∷ 0 ∷ 1 ∷ 0 ∷ 1 ∷ 0 ∷ 149 ∷ 0 ∷ 4 ∷ []
