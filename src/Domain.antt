-- ===== src/Domain.antt =====
-- The domain contracts: src/domain/results.py, conversations.py and artifacts.py.
pub mod Artifacts
pub mod Codes
pub mod Results
pub mod Classify
pub mod Conversations
