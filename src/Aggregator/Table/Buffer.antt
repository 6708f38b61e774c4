-- ===== src/Aggregator/Table/Buffer.antt =====
-- `FlowHashtable::bufferDataBlock` (src/modules/ipfix/aggregator/FlowHashtable.cpp) without biflow
-- aggregation: a record goes to its flow or to a new bucket, and the table stays valid.
use vermont.Base.{ℕ, ◌≡◌, ◌⊎◌, List, ok}
use vermont.Aggregator.Table.{Hashtable, buffer_data_block, increment}
use vermont.Aggregator.Table.Placing.{Joined, NotFound, Entered, Stored}

module _ (limit size : ℕ) where
  counted : Hashtable → Hashtable
  counted h = record h { stat_records_received = increment h.stat_records_received }

  -- The record of a hash, with what the search has found
  abbrev Placed : (ℕ → ℕ) → ℕ → List ℕ → ℕ → Hashtable → Type 0
  Placed table now flow hash h =
      (h' : Hashtable) × (buffer_data_block table now flow h ≡ ok h')
      × Stored limit size h h'
      × (Joined limit size now flow h h'
          ⊎ (NotFound limit size now flow hash h × Entered limit size now flow hash h h'))
