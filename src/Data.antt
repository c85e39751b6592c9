-- ===== src/Data.antt =====
-- pkg/data: the results of blocks, and pkg/exec/fn/fns/block_exec_handler.go: the instances of one.
pub mod VarData
pub mod BlockStore
pub mod Items
pub mod Counts
pub mod Gather
mod Examples
