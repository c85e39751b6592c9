-- ===== src/Diff.antt =====
-- pkg/exec/diff: what a run would change, and which objects are left over.
pub mod Masker
pub mod Differ
pub mod Pruned
mod Examples
