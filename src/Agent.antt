-- ===== src/Agent.antt =====
-- The sessions of the local agent (apps/desktop/electron/cc/cc-wrapper.ts).
pub mod Json
pub mod Session
pub mod Labels
pub mod Translate
pub mod Registry
pub mod Stdout
pub mod Process
pub mod Send
pub mod Config
pub mod Environment
pub mod Launch
pub mod Start
pub mod Events
pub mod Owner
pub mod Stops
pub mod Output
pub mod Delivery
pub mod Redact
pub mod Attachments
pub mod Diagnostics
mod Tests
