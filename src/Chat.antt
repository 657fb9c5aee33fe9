-- ===== src/Chat.antt =====
-- The chat store of the renderer (apps/desktop/src/stores/chat.ts).
pub mod Types
pub mod State
pub mod Threads
pub mod ErrorChunk
pub mod Route
pub mod Background
pub mod Ingest
pub mod Transport
pub mod Turn
pub mod Session
pub mod Account
pub mod History
pub mod Identity
pub mod Reply
pub mod Isolation
pub mod Panel
pub mod Dispatch
pub mod Fallback
pub mod Exit
pub mod Away
mod Tests
