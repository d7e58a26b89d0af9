-- ===== src/Wire.antt =====
-- util.go, encrypt.go and net_transport.go: what is sent in one datagram or on one stream, and how it is
-- taken apart.
pub mod Compound
pub mod RoundTrip
pub mod Split
pub mod Encrypt
pub mod EncryptLaws
pub mod Packet
pub mod PacketLaws
pub mod Stream
pub mod StreamLaws
