-- ===== src/Voice.antt =====
-- The services of the voice backend beside its ledger: backend/app/voice.
pub mod Audio
pub mod EndDetect
pub mod HalfDuplex
pub mod Session
pub mod Jwt
pub mod HelloProof
pub mod IngestTicket
pub mod Reconnect
pub mod Nonces
pub mod RateLimit
pub mod Devices
pub mod Tests
