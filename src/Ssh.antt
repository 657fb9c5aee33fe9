-- ===== src/Ssh.antt =====
-- Connections over SSH (apps/desktop/electron/bridge).
pub mod KnownHosts
mod Tests
