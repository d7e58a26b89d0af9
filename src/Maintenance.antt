-- ===== src/Maintenance.antt =====
-- maintenance.go: the periodic work over the membership table.
pub mod Schedule
pub mod Types
pub mod Sweep
pub mod Reap
pub mod Run
pub mod Choose
pub mod ChooseLaws
pub mod Probe
pub mod ProbeLaws
