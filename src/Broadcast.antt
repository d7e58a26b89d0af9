-- ===== src/Broadcast.antt =====
-- broadcast.go: the queue of messages to gossip, each sent a limited number of times.
pub mod Queue
pub mod Picking
pub mod Limits
pub mod LimitTakes
pub mod Named
pub mod LimitRuns
