-- ===== src/Runtime.antt =====
-- The updater of the managed agent runtime (apps/desktop/electron/cc/cc-runtime-updater.ts).
pub mod Text
pub mod Manifest
pub mod Fetch
pub mod State
pub mod Install
pub mod Update
pub mod Ensure
pub mod Kept
pub mod Genuine
pub mod Sound
pub mod Trusted
mod Tests
