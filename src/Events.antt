-- ===== src/Events.antt =====
-- node_events.go, and the events that the handlers of the table hand on.
pub mod Alternation
pub mod Runs
pub mod Sending
