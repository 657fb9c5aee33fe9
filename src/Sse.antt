-- ===== src/Sse.antt =====
-- The event streams (apps/desktop/src/api/sse.ts).
pub mod Framing
pub mod Reconnect
mod Tests
