-- ===== src/Ipc.antt =====
-- The messages of beacon_live/ipc.py: what goes over the wire, and the framed channel that carries it.
-- A byte is a natural number below 256.
pub mod Wire
pub mod Typed
pub mod RoundTrip
pub mod Channel
pub mod Frames
pub mod Delivery
pub mod Sending
pub mod Draining
pub mod Exchange
