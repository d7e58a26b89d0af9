-- ===== src/Addresses.antt =====
-- net_transport.go and util.go: the texts of addresses.
pub mod Ports
pub mod Resolve
pub mod ResolveLaws
pub mod Cidrs
