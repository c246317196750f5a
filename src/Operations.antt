-- ===== src/Operations.antt =====
-- services/operations.py: operation handles over the store.
pub mod Context
pub mod Execution
pub mod Merge
pub mod Rendered
pub mod Saved
