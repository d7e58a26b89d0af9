-- ===== src/Interface.antt =====
-- memberlist.go: what a program calls.
pub mod Operations
pub mod LeaveLaws
pub mod ListLaws
pub mod Join
pub mod JoinLaws
