-- ===== src/Rpc.antt =====
-- The calls and events by which the services talk.
pub mod AsyncCaller
pub mod SwiftEvent
