-- ===== src/RawDump.antt =====
-- src/socketRaw/rawSocketDump.cpp: parsing, filtering and dumping of raw Ethernet frames.
-- A frame is a list of bytes; a pointer into it is what is left of the list.
pub mod Packet
pub mod Loop
pub mod Parse
pub mod Text
pub mod Failure
mod Tests
