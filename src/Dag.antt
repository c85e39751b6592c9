-- ===== src/Dag.antt =====
-- The dependency graph of a package: pkg/dag/dag.go, with its transitive reduction in `Reduction`
-- (pkg/dag/tr.go). A mutating method returns the new graph. Every method holds its lock for its
-- whole body, so a call is one step.
pub mod Edges
pub mod Laws
pub mod Reduction
pub mod Examples
