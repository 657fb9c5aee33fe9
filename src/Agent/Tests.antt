-- ===== src/Agent/Tests.antt =====
-- The theorems on the sessions of the local agent at concrete events and texts.
mod OwnerTests
mod OutputTests
mod SafetyTests
