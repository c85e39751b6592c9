-- ===== src/Runner.antt =====
-- pkg/exec/kform/runner: a run of kform, from the inventory to the output.
pub mod Stages
pub mod Run
pub mod Plan
pub mod Kform
mod Examples
