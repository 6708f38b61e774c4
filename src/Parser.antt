-- ===== src/Parser.antt =====
-- src/modules/ipfix/IpfixParser.cpp: the sets of a message, one module for each kind, and the message.
pub mod Bytes
pub mod State
pub mod Fields
pub mod Walk
pub mod TemplateSet
pub mod OptionsSet
pub mod DataSet
pub mod Sequence
pub mod Message
pub mod Examples
mod Tests
