-- ===== src/PushPull.antt =====
-- pushpull.go: the exchange of whole tables between two nodes.
pub mod Merge
pub mod MergeLaws
pub mod Encoding
pub mod EncodingLaws
pub mod Exchange
pub mod ExchangeLaws
pub mod Limit
