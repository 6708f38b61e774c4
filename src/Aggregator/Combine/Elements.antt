-- ===== src/Aggregator/Combine/Elements.antt =====
-- What `aggregateFlow` is to do to the information elements of a flow, by their numbers in the IPFIX
-- registry.
use vermont.Base.{ℕ, ◌+◌, ◌%◌, ◌^◌, ◌==◌, ◌≡◌, List, false, leb, if◌then◌else◌}
use vermont.Record.{FieldInfo}
use vermont.Aggregator.Combine.Merge.{Merges, MergesBits, MergesPayload}
use vermont.Aggregator.Field.{is_to_be_aggregated}
use vermont.Aggregator.Number.{read_at}

-- The number and the size of the elements for the start of a flow
pub data IsStart : ℕ → ℕ → Type 0 where
  start_sys_up_time : IsStart 22 4
  start_seconds : IsStart 150 4
  start_milliseconds : IsStart 152 8
  start_microseconds : IsStart 154 4
  start_nanoseconds : IsStart 156 8

-- Those for its end
pub data IsEnd : ℕ → ℕ → Type 0 where
  end_sys_up_time : IsEnd 21 4
  end_seconds : IsEnd 151 4
  end_milliseconds : IsEnd 153 8
  end_microseconds : IsEnd 155 4
  end_nanoseconds : IsEnd 157 8

-- Those that count octets and packets
pub data IsCount : ℕ → Type 0 where
  octet_delta_count : IsCount 1
  packet_delta_count : IsCount 2
  post_octet_delta_count : IsCount 23
  post_packet_delta_count : IsCount 24
  octet_total_count : IsCount 85
  packet_total_count : IsCount 86
  dropped_octet_delta_count : IsCount 132
  dropped_packet_delta_count : IsCount 133

-- Those of the reverse direction of a flow
pub data IsReverseStart : ℕ → ℕ → Type 0 where
  reverse_start_seconds : IsReverseStart 150 4
  reverse_start_milliseconds : IsReverseStart 152 8
  reverse_start_nanoseconds : IsReverseStart 156 8

pub data IsReverseEnd : ℕ → ℕ → Type 0 where
  reverse_end_seconds : IsReverseEnd 151 4
  reverse_end_milliseconds : IsReverseEnd 153 8
  reverse_end_nanoseconds : IsReverseEnd 157 8

pub data IsReverseCount : ℕ → Type 0 where
  reverse_octet_delta_count : IsReverseCount 1
  reverse_packet_delta_count : IsReverseCount 2
  reverse_octet_total_count : IsReverseCount 85
  reverse_packet_total_count : IsReverseCount 86

-- The enterprise numbers of the program's own elements, in both directions
pub data IsOwn : ℕ → Type 0 where
  own : IsOwn 2003828736
  own_reverse : IsOwn 2003858041

-- Protocol, ports and addresses, which tell one flow from another
pub data IsKey : ℕ → Type 0 where
  protocol_identifier : IsKey 4
  source_port : IsKey 7
  source_ipv4_address : IsKey 8
  destination_port : IsKey 11
  destination_ipv4_address : IsKey 12
  source_ipv6_address : IsKey 27
  destination_ipv6_address : IsKey 28

-- The earlier and the later of two times, and the earlier of two of which 0 is not known
abbrev pub earlier : ℕ → ℕ → ℕ
earlier i j = if leb i j then i else j

abbrev pub later : ℕ → ℕ → ℕ
later i j = if leb i j then j else i

abbrev pub earlier_known : ℕ → ℕ → ℕ
earlier_known i j = if i == 0 then j else (if j == 0 then i else earlier i j)

-- The field of a flow after a record has been summed up into it
pub record IsSummed (fi : FieldInfo) (base flow base' : List ℕ) : Type 0 where
  pub start :
      (n : ℕ) → fi.type.enterprise ≡ 0 → IsStart fi.type.id n → Merges n earlier fi base flow base'
  pub end :
      (n : ℕ) → fi.type.enterprise ≡ 0 → IsEnd fi.type.id n → Merges n later fi base flow base'
  pub count :
      fi.type.enterprise ≡ 0
      → IsCount fi.type.id
      → Merges 8 (λ i j. (i + j) % 2 ^ 64) fi base flow base'
  pub tcp_control_bits : fi.type.enterprise ≡ 0 → fi.type.id ≡ 6 → MergesBits fi base flow base'
  pub reverse_start :
      (n : ℕ)
      → fi.type.enterprise ≡ 29305
      → IsReverseStart fi.type.id n
      → Merges n earlier_known fi base flow base'
  pub reverse_end :
      (n : ℕ)
      → fi.type.enterprise ≡ 29305
      → IsReverseEnd fi.type.id n
      → Merges n later fi base flow base'
  pub reverse_count :
      fi.type.enterprise ≡ 29305
      → IsReverseCount fi.type.id
      → Merges 8 (λ i j. (i + j) % 2 ^ 64) fi base flow base'
  pub reverse_control_bits :
      fi.type.enterprise ≡ 29305 → fi.type.id ≡ 6 → MergesBits fi base flow base'
  pub payload : IsOwn fi.type.enterprise → fi.type.id ≡ 1 → MergesPayload fi base flow base'
  pub payload_length :
      IsOwn fi.type.enterprise
      → fi.type.id ≡ 2
      → Merges 4 (λ i j. if i == 0 then j else i) fi base flow base'
  pub packet_gap : IsOwn fi.type.enterprise → fi.type.id ≡ 3 → Merges 4 later fi base flow base'
  pub payload_packets :
      fi.type.enterprise ≡ 2003828736
      → fi.type.id ≡ 4
      → Merges 4 (λ i j. (i + j) % 2 ^ 32) fi base flow base'
  pub key :
      fi.type.enterprise ≡ 0
      → IsKey fi.type.id
      → read_at base' fi.offset fi.type.len ≡ read_at base fi.offset fi.type.len
  pub kept :
      is_to_be_aggregated fi.type ≡ false
      → read_at base' fi.offset fi.type.len ≡ read_at base fi.offset fi.type.len
