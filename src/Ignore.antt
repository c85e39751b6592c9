-- ===== src/Ignore.antt =====
-- The ignore rules of a package.
pub mod Rules
pub mod Ignored
pub mod Reading
pub mod Parsed
mod Examples
