-- ===== src/Chat/Away.antt =====
-- Switching away from a stream and back.
pub mod Apart
pub mod Frames
pub mod Steps
pub mod Visit
pub mod Return
pub mod Ending
