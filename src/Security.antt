-- ===== src/Security.antt =====
-- The guards of the main process (apps/desktop/electron/security).
pub mod Navigation
mod Tests
