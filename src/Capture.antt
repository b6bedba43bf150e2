-- ===== src/Capture.antt =====
-- The fixed capture definition of beacon_live/live.py and what it covers.
pub mod Plan
pub mod Coverage
pub mod Bands
pub mod Startup
