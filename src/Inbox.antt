-- ===== src/Inbox.antt =====
-- net_handlers.go: where a received message goes.
pub mod LongRun
pub mod LongRunLaws
pub mod Dispatch
pub mod DispatchLaws
pub mod Replies
pub mod RepliesLaws
pub mod Drain
pub mod DrainLaws
pub mod Streams
pub mod StreamsLaws
