-- ===== src/Aggregator.antt =====
-- The aggregator: src/modules/ipfix/aggregator, which sums up the records of a flow in a hash table.
pub mod Number
pub mod Field
pub mod Combine
pub mod Key
pub mod Table
pub mod Rule
pub mod Template
mod Tests
