-- ===== src/Tests.antt =====
-- The theorems at concrete inputs.
mod ExecutionTests
mod SessionTests
mod StoreTests
mod OperationTests
mod StreamTests
mod ResultTests
mod CleanupTests
