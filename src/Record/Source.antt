-- ===== src/Record/Source.antt =====
-- `SourceID::operator==` and `equalIgnoringODID` of src/modules/ipfix/IpfixRecord.hpp as relations.
use vermont.Base.{◌≡◌, true, take, bytes_eq_refl, bytes_eq_sym, arith}
use vermont.Record.{SourceId, ExporterAddress, source_eq, equal_ignoring_odid, same_address}

same_address_refl : (a : ExporterAddress) → same_address a a ≡ true
same_address_refl a = ground (arith, bytes_eq_refl (take a.len a.ip))

-- Every source is equal to itself.
pub source_eq_refl : (s : SourceId) → source_eq s s ≡ true
unfolding source_eq
source_eq_refl s = ground (arith, same_address_refl s.exporter_address)

-- Of two sources of one protocol, equality implies equality but for the domain, either way round.
pub source_eq-equal_ignoring_odid :
    (s x : SourceId)
    → s.protocol ≡ x.protocol
    → source_eq s x ≡ true
    → equal_ignoring_odid x s ≡ true
unfolding source_eq equal_ignoring_odid
source_eq-equal_ignoring_odid s x p h = ground (
  arith,
  bytes_eq_sym (take s.exporter_address.len s.exporter_address.ip)
      (take s.exporter_address.len x.exporter_address.ip),
)
