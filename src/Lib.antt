-- ===== src/Lib.antt =====
-- vermont, the VERsatile MONitoring Tool: the core of its collector and of its aggregator, and of its
-- monitor the classification of packets and a filter of connections.
--
-- A receiver hands each packet to `IpfixParser::processPacket` (src/modules/ipfix/IpfixParser.cpp),
-- which takes an IPFIX or NetFlow v9 message apart into sets. Template sets fill the
-- `TemplateBuffer` (src/modules/ipfix/TemplateBuffer.cpp); data sets are cut into records by the
-- templates found there. Each record, and each template that is learned or destroyed, is sent to the
-- modules behind the collector.
--
-- One of those modules is the aggregator (src/modules/ipfix/aggregator): `FlowHashtable` sums up the
-- records of a flow in a bucket of a hash table, and sends the flow when one of its timeouts is over.
--
-- On the other side, an observer captures packets, which `Packet::classify`
-- (src/modules/packet/Packet.h) looks through for headers and payload. Filters decide which packets go
-- on: `StateConnectionFilter` (src/modules/packet/filter/StateConnectionFilter.cpp) exports the first
-- bytes of each connection, whose key is a `QuintupleKey` of the Bloom filters (src/common/bloom).
--
-- Base             shared names, lists, Boolean tests, and `Outcome`, the result of code that works on
--                  raw memory: a value, a read or a write beyond a buffer, or a loop out of fuel.
-- Record           src/modules/ipfix/IpfixRecord.hpp: sources, templates, fields, records sent.
-- TemplateBuffer   src/modules/ipfix/TemplateBuffer.cpp: the chain of templates as a list.
-- Parser           src/modules/ipfix/IpfixParser.cpp, one module for each kind of set: Fields,
--                  TemplateSet, OptionsSet, DataSet; then Sequence (lost records) and Message
--                  (whole packets). State holds the parser's members and what it has sent; Walk is
--                  the loop that moves a pointer over a set or a message.
--
-- Packet           src/modules/packet/Packet.h: the record of a packet, and `classify`. Headers is the
--                  loop over IPv6 extension headers, Classified the switch over the protocol,
--                  Crop the cut of padding, Network the branches of the IP versions, FlowLabel what
--                  the cut does to IPv6 packets.
-- Bloom            src/common/bloom: set and get of the filters; Cells has the arrays below them, Key
--                  the keys. Marks and Laws say what a set leaves in the cells, NoMiss what a get
--                  makes of it.
-- Filter           src/modules/packet/filter: StateConnection, its export list as an association list.
--                  Budget runs it on packets, and says what is to be exported of one connection.
--
-- Aggregator       src/modules/ipfix/aggregator: Number (src/common/Misc.h, numbers in network byte
--                  order), Field (which fields are summed up), Combine (`aggregateFlow`; its Elements
--                  say by the numbers of the IPFIX registry what is to become of a field), Key
--                  (`getHash`, `equalFlow`), Table (the hash table with its chains and its list of
--                  exports), Rule (Rule.cpp: which records a table takes) and Template (the layout of
--                  the table's records, which a rule gives). Table/Valid is the invariant, Steps and
--                  Moves the changes that keep it; Renewal, Search, Placing, Buffer and Dropped follow
--                  `bufferDataBlock`, Expiry and Flush `expireFlows`. Rule/Network has the patterns of
--                  addresses, Ports those of ports, Reads and Matched the whole rule.
--
-- A pointer into a message is an offset in a list of bytes. Every message comes with a `SourceID`
-- of its own (the receivers allocate one for each packet), so sources are values. `time(NULL)` is the
-- argument `now`, the same throughout a call. A loop's fuel is one more than the length field of the
-- set, or the length of the message: each round but that of an empty data record moves the pointer on.
-- Counters keep the width that they have in the code.
--
-- A bucket of the hash table is an address in a store, where a destroyed bucket leaves `none`, and a
-- chain, or the list of exports, is the list of its addresses. The clock is the argument `now`, in
-- seconds, and the table of `crc32` is an argument. So are what a shift of 32 bits by 32 or more gives,
-- which C++ leaves open, and the table behind `ipfix_id_lookup`.
--
-- Not modelled: logging, locks, the XML statistics, `withdrawBufferedTemplates` (nothing calls it),
-- and the destructors. Of the aggregator, the template of the table and the mappers for the reverse
-- direction are values that the table is given; the rules for packets, the copy of records into the table, the lock and
-- `PacketHashtable` are not modelled.
-- Of the packets, the capture, the reference count and the selection of fields are not modelled; of the
-- filters only the connection filter with state is. The numbers of the GSL generator are an argument.
-- An `int` is its 32-bit pattern, and the host is little-endian. The loop over extension headers has
-- the length of the buffer as fuel, since every header takes eight octets.
pub mod Aggregator
pub mod Base
pub mod Bloom
pub mod Filter
pub mod Packet
pub mod Parser
pub mod Record
pub mod TemplateBuffer
