-- ===== src/Parser.antt =====
-- pkg/syntax/parser: from the documents of a package to its graph.
pub mod Tasks
pub mod Placed
pub mod Steps
pub mod Settled
pub mod Ending
pub mod Documents
pub mod Checks
pub mod Parse
pub mod Clean
pub mod Sound
mod Examples
