-- ===== src/Service.antt =====
-- The broker of beacon_live/service.py: what a session may be started with, and the state that client
-- requests and the capture owner's publications change.
pub mod Config
pub mod Broker
pub mod Start
pub mod Dispatch
pub mod Shutdown
pub mod Refusals
pub mod Invariant
pub mod Starting
pub mod Lifecycle
pub mod Requests
pub mod Ending
pub mod Reports
pub mod Late
pub mod Stopping
