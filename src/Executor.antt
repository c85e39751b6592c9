-- ===== src/Executor.antt =====
-- pkg/exec/executor: the goroutines that run the blocks of a graph. `Channels` is the set-up of
-- dag_executor.go, `System` the goroutines of dag_executor.go and exec_context.go as a step
-- function over their program counters.
pub mod Channels
pub mod Matrix
pub mod System
pub mod Rules
pub mod Knowledge
pub mod Invariant
pub mod Order
pub mod Examples
