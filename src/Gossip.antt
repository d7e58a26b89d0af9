-- ===== src/Gossip.antt =====
-- What goes out in datagrams: the gossip rounds and the messages that carry broadcasts with them.
pub mod Send
pub mod Parts
pub mod Sizes
pub mod Delivery
