-- ===== src/Channel.antt =====
-- beacon_live/channel.py
pub mod Frequency
pub mod Definition
pub mod Operation
pub mod Hysteresis
pub mod Choice
