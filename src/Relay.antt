-- ===== src/Relay.antt =====
-- The relay that pairs a phone with a PC: backend/relay/.
pub mod Frames
pub mod Pairing
pub mod Sealing
pub mod Store
pub mod Server
mod Tests
