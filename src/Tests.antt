-- ===== src/Tests.antt =====
-- Concrete inputs that the theorems are applied to, by part of the program.
mod Channels
mod Captures
mod Sessions
mod Measurements
mod Displays
mod Messages
mod Services
mod Receptions
mod Projections
mod Exports
