-- ===== src/Members.antt =====
-- state.go: the membership table and the three messages that change it.
pub mod Types
pub mod Handlers
pub mod Valid
pub mod AddNode
pub mod Replace
pub mod Changes
pub mod Sound
pub mod Announce
pub mod Refute
pub mod Grows
pub mod Timeouts
