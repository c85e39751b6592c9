-- ===== src/Renderer.antt =====
-- pkg/render2: the walk over a document, and the dependencies that it finds.
pub mod Walk
pub mod Dependencies
pub mod Found
mod Examples
