-- ===== src/Agent/Owner.antt =====
-- Which session a conversation has: what the maps promise, over any events (cc-wrapper.ts).
pub mod Frame
pub mod Kept
pub mod Stopped
pub mod Reports
pub mod Ended
pub mod Exits
pub mod Spec
pub mod Opened
pub mod Refines
pub mod Single
