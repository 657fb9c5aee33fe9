-- ===== src/Stores/Tests.antt =====
-- The theorems on the smaller stores at concrete states.
mod ToastTests
mod ActivityTests
mod ArtifactTests
