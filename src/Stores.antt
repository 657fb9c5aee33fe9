-- ===== src/Stores.antt =====
-- The smaller stores of the renderer (apps/desktop/src/stores, apps/desktop/src/api).
pub mod Toast
pub mod AuthStale
pub mod Activity
pub mod Artifact
mod Tests
