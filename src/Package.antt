-- ===== src/Package.antt =====
-- pkg/syntax/types: the blocks of a package, the intake of documents and the graph of a package.
pub mod BlockTypes
pub mod Nodes
pub mod Blocks
pub mod Validator
pub mod Intake
pub mod Update
pub mod Locals
pub mod Growth
pub mod Handlers
pub mod Listing
pub mod Resolved
pub mod Graph
pub mod Connected
pub mod Reached
mod Examples
