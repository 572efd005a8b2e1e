-- ===== src/UdpOrder.antt =====
-- src/udp/udpOrderSendRecv.cpp: a sender that numbers its packets, and a receiver that counts them,
-- checks the order of each sender and reports by period.
pub mod Stats
pub mod CheckSno
pub mod Periods
pub mod Streams
pub mod SendBuf
pub mod Lengths
pub mod Sender
pub mod Wire
pub mod Sending
pub mod EndToEnd
pub mod Setup
pub mod Block
pub mod Whole
pub mod Start
mod Tests
