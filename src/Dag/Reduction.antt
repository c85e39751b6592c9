-- ===== src/Dag/Reduction.antt =====
-- pkg/dag/tr.go: the walk over a graph and the transitive reduction that is made of two walks from
-- every vertex. `range` over a map visits the keys in an order that may differ from one `range` to
-- the next: `ord n` is the order of the n-th one, and the walk counts them. The recursion of
-- `trwalk` runs on fuel, and `none` is a stack that overflows.
pub mod Walk
pub mod Steps
pub mod Rules
pub mod Invariant
pub mod Depth
pub mod Termination
pub mod Cycle
pub mod Coverage
