-- ===== src/Filter.antt =====
-- The packet filters of src/modules/packet/filter.
pub mod StateConnection
mod Tests
