-- ===== src/Rndis.antt =====
-- src/rndis: the RNDIS protocol.
pub mod Wire
pub mod Control
pub mod Packet
mod Tests
