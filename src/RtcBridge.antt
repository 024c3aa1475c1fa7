-- ===== src/RtcBridge.antt =====
-- The RTC bridge (backend/rtc_bridge): the audio queue, the frame buffer, the downlink shaper and
-- the drain reports of a connection.
pub mod Queue
pub mod Frames
pub mod Shaper
pub mod Redemption
pub mod AckReporter
pub mod Drain
pub mod Tests
