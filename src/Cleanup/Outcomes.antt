-- ===== src/Cleanup/Outcomes.antt =====
-- How the workers of `RemoteChatCleanupManager` end, with any pieces of other operations between
-- their own.
pub mod Late
pub mod Withdrawn
pub mod Verified
pub mod Decisions
pub mod Retries
pub mod Exclusive
