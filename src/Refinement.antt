-- ===== src/Refinement.antt =====
-- The table of state.go as one small state machine for each remote node.
pub mod Entry
pub mod Handlers
pub mod Runs
pub mod Precedence
pub mod Races
