-- ===== src/Ping.antt =====
-- ping.go: the pings sent, and the handlers of their acks.
pub mod Manager
pub mod ManagerLaws
pub mod NackLaws
pub mod Probes
pub mod ProbesLaws
