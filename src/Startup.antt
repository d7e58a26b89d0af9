-- ===== src/Startup.antt =====
-- memberlist.go and config.go: how a node is built and started.
pub mod Options
pub mod Addresses
pub mod Build
pub mod TransportLaws
pub mod SecretLaws
pub mod FirstTable
pub mod BuildLaws
pub mod Absent
pub mod Blocked
