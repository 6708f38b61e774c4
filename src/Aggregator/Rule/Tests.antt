-- ===== src/Aggregator/Rule/Tests.antt =====
-- Tests of the rules, and the theorems at concrete inputs.
use vermont.Base.{
  ℕ, zero, suc, ◌+◌, ◌*◌, ◌/◌, ◌≤◌, ◌<◌, ◌≡◌, ◌↔◌, ◌⊎◌, refl, inl, inr, Bool, true, false, List, [],
  ◌∷◌, some, ok, All, arith,
}
use vermont.Aggregator.Rule.{
  RuleField, ipv4_imask, ipv4_address, address_byte, matches_ipv4_pattern, shift_right,
  same_network, in_ranges, all_in_ranges, matches_port_pattern, data_record_matches,
}
use vermont.Aggregator.Rule.Matched.{IsMatched, data_record_matches-IsMatched}
use vermont.Aggregator.Rule.Network.{IsPartOf, matches_ipv4_pattern-IsPartOf}
use vermont.Aggregator.Rule.Ports.{
  IsRange, IsPort, matches_port_pattern-HasPort, matches_port_pattern_outside,
}
use vermont.Parser.Bytes.{read_u8, read_u16}
use vermont.Record.{FieldInfo}

-- A shift by 32 bits or more, as some processors do it
abbrev shift_modulo : ℕ → ℕ → ℕ
shift_modulo v k = v

abbrev none_known : ℕ → ℕ → Bool
none_known id enterprise = false

-- 10.1.2.0 and 10.1.0.0, with the bits of their host parts
abbrev subnet : List ℕ
subnet = 10 ∷ 1 ∷ 2 ∷ 0 ∷ 8 ∷ []

abbrev network : List ℕ
network = 10 ∷ 1 ∷ 0 ∷ 0 ∷ 16 ∷ []

subnet_mask : ipv4_imask 5 subnet 0 ≡ ok 8
unfolding ipv4_imask read_u8
subnet_mask = refl

network_mask : ipv4_imask 5 network 0 ≡ ok 16
unfolding ipv4_imask read_u8
network_mask = refl

subnet_address : ipv4_address 5 subnet 0 ≡ ok 167838208
unfolding ipv4_address address_byte read_u8
subnet_address = refl

network_address : ipv4_address 5 network 0 ≡ ok 167837696
unfolding ipv4_address address_byte read_u8
network_address = refl

matches_ipv4_pattern-IsPartOf_example :
    (r : Bool) × (matches_ipv4_pattern shift_modulo 5 subnet 0 5 network 0 ≡ ok r)
    × ((r ≡ true) ↔ IsPartOf 8 167838208 16 167837696)
matches_ipv4_pattern-IsPartOf_example =
    matches_ipv4_pattern-IsPartOf shift_modulo 5 subnet 0 5 network 0 8 16 167838208 167837696
      subnet_mask network_mask subnet_address network_address (omega arith)

-- The subnet matches the network, and the network does not match the subnet.
subnet_matches : matches_ipv4_pattern shift_modulo 5 subnet 0 5 network 0 ≡ ok true
unfolding matches_ipv4_pattern ipv4_imask ipv4_address address_byte same_network shift_right read_u8
subnet_matches = refl

network_fails : matches_ipv4_pattern shift_modulo 5 network 0 5 subnet 0 ≡ ok false
unfolding matches_ipv4_pattern ipv4_imask ipv4_address address_byte same_network shift_right read_u8
network_fails = refl

-- The ports from 100 to 200, and from 50 to 300
abbrev some_ports : List ℕ
some_ports = 0 ∷ 100 ∷ 0 ∷ 200 ∷ []

abbrev more_ports : List ℕ
more_ports = 0 ∷ 50 ∷ 1 ∷ 44 ∷ []

some_ports-IsRange : IsRange some_ports 0 100 200
unfolding read_u16 read_u8
some_ports-IsRange = (refl, refl)

ranges_match : matches_port_pattern 4 some_ports 0 4 more_ports 0 ≡ ok true
unfolding matches_port_pattern all_in_ranges in_ranges read_u16 read_u8
ranges_match = refl

matches_port_pattern-HasPort_example : IsPort (4 / 4) more_ports 0 150
matches_port_pattern-HasPort_example =
    matches_port_pattern-HasPort 4 some_ports 0 4 more_ports 0 150 refl ranges_match
      (inr (refl, (0, 100, 200, omega arith, some_ports-IsRange, omega arith, omega arith)))

port_50 : read_u16 more_ports 0 ≡ ok 50
unfolding read_u16 read_u8
port_50 = refl

outside_50 :
    (i : ℕ)
    → i < 4 / 4
    → (lo : ℕ) × (hi : ℕ) × IsRange some_ports (0 + i * 4) lo hi × ((50 ≤ lo) ⊎ (hi ≤ 50))
outside_50 zero l = (100, 200, some_ports-IsRange, inl (omega arith))
outside_50 (suc i) l = absurd (omega (arith, l))

matches_port_pattern_outside_example : matches_port_pattern 4 some_ports 0 2 more_ports 0 ≡ ok true
matches_port_pattern_outside_example =
    matches_port_pattern_outside 4 some_ports 0 more_ports 0 50 refl port_50 outside_50

abbrev template : List FieldInfo
template =
    record {
      type = record { id = 7; enterprise = 0; len = 2 };
      offset = 0;
      is_variable_length = false;
    }
    ∷ []

abbrev rule : List RuleField
rule =
    record {
      type = record { id = 7; enterprise = 0; len = 4 };
      pattern = some more_ports;
      modifier = 1;
    }
    ∷ []

data_record_matches-IsMatched_example :
    (r : Bool) × (data_record_matches shift_modulo none_known false template some_ports rule ≡ ok r)
    × ((r ≡ true)
        ↔ All
            (IsMatched shift_modulo none_known false template some_ports
              ((omega arith, omega arith), tt))
            rule)
data_record_matches-IsMatched_example =
    data_record_matches-IsMatched shift_modulo none_known false template some_ports
      ((omega arith, omega arith), tt) rule (omega arith, tt)
