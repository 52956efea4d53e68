-- ===== src/Codex.antt =====
-- internal/codex: what one upstream attempt fails with, the model catalog, and the event stream.
pub mod Client
pub mod Request
pub mod Catalog
pub mod Json
pub mod Controls
pub mod Input
pub mod Parse
pub mod Stream
