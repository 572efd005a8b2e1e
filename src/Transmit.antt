-- ===== src/Transmit.antt =====
-- src/tcp/tcpFileTransmitter.cpp: a file sent over a TCP stream as chunks, each behind its length.
pub mod Sending
pub mod Receiving
pub mod Rounds
pub mod Names
pub mod RoundTrip
pub mod Ending
mod Tests
