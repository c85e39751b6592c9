-- ===== src/Functions.antt =====
-- pkg/exec/fn/fns: the functions that run one instance of a block of each kind.
pub mod World
pub mod Resource
pub mod Loop
pub mod Cluster
pub mod Rule
pub mod Values
pub mod Packages
pub mod Defaults
pub mod DryRun
pub mod Destroy
pub mod Documents
mod Examples
