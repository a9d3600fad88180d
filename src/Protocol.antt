-- ===== src/Protocol.antt =====
-- crates/velobus/src/protocol.rs: the binary protocol. The children hold its data, its reader, its
-- decoders and encoders, and what is proved of them.
pub mod Codes
pub mod Types
pub mod Utf8
pub mod Reader
pub mod Decode
pub mod Encode
pub mod Reads
pub mod Consumes
pub mod Records
pub mod RoundTrip
pub mod Wire
pub mod StrictRecords
pub mod Strict
pub mod Runs
