-- ===== src/ControlPlane.antt =====
-- The control-plane ledger of voice sessions (backend/app/voice/control_plane*.py): the tables,
-- the transactions on them, and what any history of transactions keeps.
pub mod Schema
pub mod Payload
pub mod Cipher
pub mod Sessions
pub mod Acks
pub mod Retry
pub mod Kws
pub mod Wake
pub mod Hello
pub mod Claims
pub mod History
pub mod Invariant
pub mod Lifecycle
pub mod Evidence
pub mod Replays
pub mod Sealing
pub mod Signing
pub mod Gates
pub mod Readings
pub mod Tests
