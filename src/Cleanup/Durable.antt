-- ===== src/Cleanup/Durable.antt =====
-- The durable jobs of `RemoteChatCleanupManager`: scheduling and claiming them in the state store.
mod Jobs
mod Schedules
mod Claims
unfoldable pub use Jobs.*
unfoldable pub use Schedules.*
unfoldable pub use Claims.*
