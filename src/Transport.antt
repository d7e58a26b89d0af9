-- ===== src/Transport.antt =====
-- net_transport.go: the sockets of `NetTransport`.
pub mod Sockets
pub mod AddrLaws
pub mod StartLaws
pub mod RetryLaws
pub mod Buffers
pub mod Listen
pub mod ListenLaws
